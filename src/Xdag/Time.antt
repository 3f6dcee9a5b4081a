-- ===== src/Xdag/Time.antt =====
-- xdag/time.go: XDAG times count 1024ths of a second, and main times count periods of 64 seconds.
use xmrig2xdag.Common.{ℕ, ◌+◌, ◌-◌, ◌*◌, ◌/◌, ◌^◌, ◌≡◌, ◌∙◌, bit_or, arith}
use xmrig2xdag.Common.Bits.{bit_or_low}

abbrev pub main_era : ℕ
main_era = 0x16940000000

-- MainTime
unfoldable pub main_time : ℕ → ℕ
main_time t = t / 2 ^ 16

-- GetXTimestamp, at `t` nanoseconds after 1970. The code's int64 and uint64 hold these numbers for 292
-- years after 1970.
unfoldable pub get_x_timestamp : ℕ → ℕ
get_x_timestamp t =
    let sec = t / 10 ^ 9 in
    let usec = (t - sec * 10 ^ 9) / 1000 in
    let xmsec = usec * 1024 / 10 ^ 6 in bit_or (sec * 2 ^ 10) xmsec

-- CurrentMainTime
unfoldable pub current_main_time : ℕ → ℕ
unfolding get_x_timestamp main_time
current_main_time t = main_time (get_x_timestamp t)

-- StartMainTime
unfoldable pub start_main_time : ℕ
unfolding main_time
start_main_time = main_time main_era

timestamp-sum :
    (t : ℕ)
    → get_x_timestamp t ≡ t / 10 ^ 9 * 1024 + (t - t / 10 ^ 9 * 10 ^ 9) / 1000 * 1024 / 10 ^ 6
unfolding get_x_timestamp
timestamp-sum t =
    bit_or_low 10 (t / 10 ^ 9) ((t - t / 10 ^ 9 * 10 ^ 9) / 1000 * 1024 / 10 ^ 6) (omega arith)

-- A timestamp is the time in microseconds, rounded down to 1024ths of a second; and the main time of now
-- is the number of whole periods of 64 seconds since 1970.
pub get_x_timestamp-rounds :
    (t : ℕ)
    → (get_x_timestamp t ≡ t / 1000 * 1024 / 10 ^ 6) × (current_main_time t ≡ t / (64 * 10 ^ 9))
unfolding current_main_time main_time
get_x_timestamp-rounds t = (timestamp-sum t ∙ omega arith, omega (arith, timestamp-sum t))
