-- ===== src/Eventlog.antt =====
-- src/logs/eventlog_filter.rs, src/config.rs: the filter of Windows events, and the API key.
pub mod Merge
pub mod Ranges
pub mod Entry
pub mod Xml
pub mod Severity
pub mod Process
pub mod Values
use witness.Prelude.{
  ℕ, Bool, true, false, not, ◌&&◌, ◌||◌, Option, none, some, List, [], ◌∷◌, ◌++◌, ltb, leb, ◌==◌,
  if◌then◌else◌, length, any, all, is_empty,
}
use witness.Prelude.Str.{Bytes, eq_ignore_ascii_case, is_ascii_hexdigit}
use witness.Std.Trim.{trim}
use witness.Std.Split.{split, split_once}
use witness.Std.Number.{parse_uint, u32}

pub record EventIdFilter : Type 0 where
  pub includes : List (ℕ × ℕ)
  pub excludes : List (ℕ × ℕ)

-- `Result<_, String>` without the texts of its errors.
unfoldable pub parse_id : Bytes → Option ℕ
unfolding trim parse_uint
parse_id s = parse_uint u32 (trim s)

abbrev pub range_of : ℕ → ℕ → Option (ℕ × ℕ)
range_of lo hi = if ltb hi lo then none else some (lo, hi)

unfoldable pub parse_range : Bytes → Option (ℕ × ℕ)
unfolding parse_id split_once
parse_range body = elim (split_once b'-' body) [
  | some (a, b) ↦ elim (parse_id a) [
    | none ↦ none
    | some lo ↦ elim (parse_id b) [ none ↦ none | some hi ↦ range_of lo hi ]
  ]
  | none ↦ elim (parse_id body) [ none ↦ none | some n ↦ some (n, n) ]
]

abbrev pub include_to : Option (ℕ × ℕ) → EventIdFilter → Option EventIdFilter
include_to none f = none
include_to (some r) f = some (record f { includes = f.includes ++ r ∷ [] })

abbrev pub exclude_to : Option (ℕ × ℕ) → EventIdFilter → Option EventIdFilter
exclude_to none f = none
exclude_to (some r) f = some (record f { excludes = f.excludes ++ r ∷ [] })

-- A trimmed token: nothing, `-` and a range to exclude, or a range to include.
unfoldable pub add_token : Bytes → EventIdFilter → Option EventIdFilter
unfolding trim parse_range
add_token [] f = some f
add_token (c ∷ cs) f =
    if c == b'-' then exclude_to (parse_range (trim cs)) f else include_to (parse_range (c ∷ cs)) f

unfoldable pub add_tokens : List Bytes → EventIdFilter → Option EventIdFilter
unfolding add_token trim
add_tokens [] f = some f
add_tokens (raw ∷ raws) f = elim (add_token (trim raw) f) [
  | none ↦ none
  | some g ↦ add_tokens raws g
]

abbrev pub no_filter : EventIdFilter
no_filter = record { includes = []; excludes = [] }

unfoldable pub parse : Bytes → Option EventIdFilter
unfolding add_tokens split
parse spec = add_tokens (split b',' spec) no_filter

abbrev pub in_any : ℕ → List (ℕ × ℕ) → Bool
in_any id rs = any (λ r. leb r.0 id && leb id r.1) rs

unfoldable pub matches : EventIdFilter → ℕ → Bool
matches f id =
    if in_any id f.excludes
    then false
    else if is_empty f.includes
    then true
    else in_any id f.includes

pub record EventFilter : Type 0 where
  pub event_ids : Option EventIdFilter
  pub exclude_providers : List Bytes

unfoldable pub new : Option Bytes → List Bytes → Option EventFilter
unfolding parse
new none providers = some (record { event_ids = none; exclude_providers = providers })
new (some spec) providers = elim (parse spec) [
  | none ↦ none
  | some f ↦ some (record { event_ids = some f; exclude_providers = providers })
]

abbrev is_filtered : Option EventIdFilter → Option ℕ → Bool
is_filtered (some f) (some id) = not (matches f id)
is_filtered _ _ = false

unfoldable pub is_excluded : EventFilter → Bytes → Bytes → Bool
unfolding matches eq_ignore_ascii_case parse_uint
is_excluded f provider event_id =
    any (λ p. eq_ignore_ascii_case p provider) f.exclude_providers
    || is_filtered f.event_ids (parse_uint u32 event_id)

pub data ApiKey : Type 0 where
  valid missing : ApiKey
  wrong_length : ℕ → ApiKey
  not_hex : ApiKey

unfoldable pub validate_api_key : Bytes → ApiKey
validate_api_key key =
    if is_empty key
    then missing
    else if not (length key == 32)
    then wrong_length (length key)
    else if not (all is_ascii_hexdigit key)
    then not_hex
    else valid
