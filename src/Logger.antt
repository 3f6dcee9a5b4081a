-- ===== src/Logger.antt =====
-- logger/logger.go, and setupLogger of main.go, which configures it: where messages go, and which.
use xmrig2xdag.Common.{
  ℕ, ◌≡◌, refl, List, [], ◌∷◌, Option, none, some, Bool, true, false, not, ltb, ◌==◌, if◌then◌else◌,
  list_eq,
}

abbrev pub info : ℕ
info = 0

abbrev pub debug : ℕ
debug = 1

-- log.LstdFlags
abbrev pub lstd_flags : ℕ
lstd_flags = 3

-- The standard output; that and a file; or the discardWriter.
pub data Writer : Type 0 where
  stdout discard_writer : Writer
  stdout_and : List ℕ → Writer

-- Config of the logger. A writer may be nil.
pub record Config : Type 0 where
  pub w : Option Writer
  pub flag : ℕ
  pub level : ℕ
  pub discard : Bool

-- The package's variable config.
abbrev pub default_config : Config
default_config = record { w = some stdout; flag = lstd_flags; level = info; discard = false }

-- The parts of Configure.
abbrev apply_discard : Config → Config → Config
apply_discard c config =
    if c.discard then record config { discard = c.discard; w = some discard_writer } else config

abbrev apply_writer : Config → Config → Config
apply_writer c config = elim (c.w) [ none ↦ config | some w ↦ record config { w = some w } ]

abbrev apply_flag : Config → Config → Config
apply_flag c config = if c.flag == 0 then config else record config { flag = c.flag }

-- Configure
unfoldable pub configure : Config → Config → Config
configure c config = record (apply_flag c (apply_writer c (apply_discard c config))) {
  level = c.level;
}

pub record Logger : Type 0 where
  pub writer : Option Writer
  pub flag : ℕ
  pub level : ℕ

-- New
unfoldable pub new : Config → Logger
new c = record { writer = c.w; flag = c.flag; level = c.level }

-- Debug, Debugf and Debugln print from the level debug on.
unfoldable pub prints_debug : Logger → Bool
prints_debug l = if ltb (l.level) debug then false else true

-- setupLogger of main.go, for the fields Debug, LogFile and DiscardLog of the configuration; a file that
-- cannot be opened ends the program.
unfoldable pub setup_logger : Bool → List ℕ → Bool → Config
setup_logger debug_on log_file discard_log = record {
  w = if list_eq log_file [] then none else some (stdout_and log_file);
  flag = 0;
  level = if debug_on then debug else info;
  discard = discard_log;
}

-- The logger that the program uses.
unfoldable pub logger : Bool → List ℕ → Bool → Logger
unfolding new configure setup_logger
logger debug_on log_file discard_log =
    new (configure (setup_logger debug_on log_file discard_log) default_config)

-- A log file is written to, beside the standard output, whether or not the log is to be discarded; without
-- one, the log is discarded if it is to be, and else goes to the standard output. Messages for debugging are
-- printed exactly if debugging is on, and the flags stay those of the package.
pub logger-writer :
    (debug_on : Bool) (log_file : List ℕ) (discard_log : Bool)
    → ((logger debug_on log_file discard_log).writer ≡ (
        if not (list_eq log_file [])
        then some (stdout_and log_file)
        else some (if discard_log then discard_writer else stdout)))
      × (prints_debug (logger debug_on log_file discard_log) ≡ debug_on)
      × ((logger debug_on log_file discard_log).flag ≡ lstd_flags)
unfolding logger prints_debug
logger-writer true [] true = (refl, refl, refl)
logger-writer true [] false = (refl, refl, refl)
logger-writer true (c ∷ cs) true = (refl, refl, refl)
logger-writer true (c ∷ cs) false = (refl, refl, refl)
logger-writer false [] true = (refl, refl, refl)
logger-writer false [] false = (refl, refl, refl)
logger-writer false (c ∷ cs) true = (refl, refl, refl)
logger-writer false (c ∷ cs) false = (refl, refl, refl)
