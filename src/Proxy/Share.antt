-- ===== src/Proxy/Share.antt =====
-- proxy/share.go: a miner's share and the checks on it. The channels of a share are part of the answer
-- that the proxy gives. A panic of the code is `none`.
use xmrig2xdag.Common.{
  ℕ, ◌+◌, List, [], Option, none, some, leb, ltb, ◌==◌, not, ◌||◌, if◌then◌else◌, length, codes,
  slice,
}
use xmrig2xdag.Common.Options.{◌>>=◌}
use xmrig2xdag.Encoding.{le_value, decode_string, HexError}
use xmrig2xdag.Proxy.Job.{Job}

abbrev pub validate_format_level : ℕ
validate_format_level = 2

abbrev pub validate_diff_level : ℕ
validate_diff_level = 3

abbrev pub validate_full_level : ℕ
validate_full_level = 4

abbrev pub share_value_offset : ℕ
share_value_offset = 24

abbrev pub share_value_length : ℕ
share_value_length = 8

-- The errors of the package that a share can meet.
pub data ShareError : Type 0 where
  bad_job_id : ShareError
  duplicate_share : ShareError
  malformed_share : ShareError
  malformed_share_result : ShareError
  diff_too_low : ShareError
  no_client : ShareError
  share_hex : HexError → ShareError

pub record Share : Type 0 where
  pub auth_id : List ℕ
  pub job_id : List ℕ
  pub nonce : List ℕ
  pub result : List ℕ

-- A value of a request's parameters: a text, or something else.
pub data Value : Type 0 where
  text : List ℕ → Value
  other : Value

-- `params[key].(string)` where the key is there.
abbrev pub text_or_empty : Option Value → Option (List ℕ)
text_or_empty none = some []
text_or_empty (some (text t)) = some t
text_or_empty (some other) = none

-- newShare
unfoldable pub new_share : (List ℕ → Option Value) → Option Share
new_share params = do
  job_id ← text_or_empty (params (codes "job_id"))
  nonce ← text_or_empty (params (codes "nonce"))
  result ← text_or_empty (params (codes "result"))
  some (record { auth_id = []; job_id = job_id; nonce = nonce; result = result })

-- validateFormat
unfoldable pub validate_format : Share → Option ShareError
validate_format s =
    if not (length (s.nonce) == 8) || not (length (s.result) == 64)
    then some malformed_share
    else elim ((decode_string (s.nonce)).1) [
      | some e ↦ some (share_hex e)
      | none ↦ elim ((decode_string (s.result)).1) [ some e ↦ some (share_hex e) | none ↦ none ]
    ]

-- validateDifficulty, which returns before it looks at anything.
abbrev pub validate_difficulty : Share → Job → Option ShareError
validate_difficulty s j = none

-- validateResult
abbrev pub validate_result : Share → Job → Option ShareError
validate_result s j = none

-- The first of two checks that fails.
abbrev or_else : Option ShareError → Option ShareError → Option ShareError
or_else (some e) next = some e
or_else none next = next

-- validate, at the level that the configuration names.
unfoldable pub validate : ℕ → Share → Job → Option ShareError
validate level s j = or_else (if leb validate_format_level level then validate_format s else none) (
    or_else (if leb validate_diff_level level then validate_difficulty s j else none)
      (if leb validate_full_level level then validate_result s j else none))

-- getResultUint64
unfoldable pub get_result_uint64 : Share → ℕ × Option ShareError
get_result_uint64 s =
    let (bytes, error) = decode_string (s.result) in
    elim error [
      | some e ↦ (0, some (share_hex e))
      | none ↦
          if ltb (length bytes) (share_value_offset + share_value_length)
          then (0, some malformed_share_result)
          else (
            le_value (slice bytes share_value_offset (share_value_offset + share_value_length)),
            none,
          )
    ]
