-- ===== src/Eventlog/Severity.antt =====
-- src/logs/eventlog_parse.rs: the severity of an event, its keywords in hexadecimal, and constants.
use witness.Prelude.{
  ℕ, ◌+◌, ◌-◌, ◌*◌, Bool, true, false, Option, none, some, [], ◌∷◌, ltb, ◌==◌, if◌then◌else◌,
}
use Prim.Native.Nat.{bit_and}
use witness.Prelude.Str.{Bytes, codes, within, strip_prefix}
use witness.Std.Number.{u64}
use witness.Std.Trim.{trim}
use witness.Level.{LogLevel, critical, error, warning, info, debug}
use witness.Eventlog.Entry.{EventEntry}

abbrev pub audit_failure : ℕ
audit_failure = 0x8010000000000000

abbrev pub audit_success : ℕ
audit_success = 0x8020000000000000

abbrev pub max_xml_len : ℕ
max_xml_len = 256 * 1024

abbrev pub self_provider : Bytes
self_provider = codes "witness"

abbrev pub default_query : Bytes
default_query = codes "*[System[(Level=0 or Level=1 or Level=2 or Level=3 or Level=4)]]"

pub data ProcessResult : Type 0 where
  handled channel_full parse_failed : ProcessResult

unfoldable pub effective_query : Option Bytes → Bytes
effective_query none = default_query
effective_query (some q) = q

unfoldable pub level_of : Option ℕ → LogLevel
level_of none = info
level_of (some l) =
    if l == 1
    then critical
    else if l == 2
    then error
    else if l == 3
    then warning
    else if l == 5
    then debug
    else info

abbrev pub hex_digit : ℕ → Option ℕ
hex_digit c =
    if within b'0' b'9' c
    then some (c - b'0')
    else if within b'a' b'f' c
    then some (c - b'a' + 10)
    else if within b'A' b'F' c
    then some (c - b'A' + 10)
    else none

-- `u64::from_str_radix(_, 16)`: an optional `+`, then digits that fit.
unfoldable pub hex_onto : ℕ → Bytes → Option ℕ
hex_onto n [] = some n
hex_onto n (c ∷ cs) = elim (hex_digit c) [
  | none ↦ none
  | some d ↦ elim (ltb (n * 16 + d) u64) [ true ↦ hex_onto (n * 16 + d) cs | false ↦ none ]
]

abbrev pub hex_digits : Bytes → Option ℕ
hex_digits [] = none
hex_digits (c ∷ cs) = hex_onto 0 (c ∷ cs)

unfoldable pub from_str_radix_16 : Bytes → Option ℕ
unfolding hex_onto
from_str_radix_16 [] = none
from_str_radix_16 (c ∷ cs) = if c == b'+' then hex_digits cs else hex_digits (c ∷ cs)

unfoldable pub parse_keywords_hex : Bytes → Option ℕ
unfolding trim strip_prefix from_str_radix_16
parse_keywords_hex s = elim (strip_prefix (codes "0x") (trim s)) [
  | some hex ↦ from_str_radix_16 hex
  | none ↦ elim (strip_prefix (codes "0X") (trim s)) [
    | some hex ↦ from_str_radix_16 hex
    | none ↦ none
  ]
]

abbrev pub has_mask : ℕ → ℕ → Bool
has_mask keywords mask = bit_and keywords mask == mask

unfoldable pub resolve_severity : EventEntry → LogLevel × Option Bytes
unfolding parse_keywords_hex level_of
resolve_severity e = elim (parse_keywords_hex e.keywords) [
  | none ↦ (level_of e.level, none)
  | some k ↦
      if has_mask k audit_failure
      then (error, some (codes "failure"))
      else if has_mask k audit_success
      then (info, some (codes "success"))
      else (level_of e.level, none)
]
