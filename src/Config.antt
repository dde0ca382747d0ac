-- ===== src/Config.antt =====
-- src/config.rs: what is checked of a configuration, and durations. TOML and regular expressions are
-- parsed by crates; of the configuration only the fields that are looked at here are kept.
use witness.Prelude.{
  ℕ, ◌*◌, ◌%◌, Bool, true, false, ◌&&◌, Option, none, some, reverse, if◌then◌else◌, is_some,
  is_empty,
}
use witness.Prelude.Str.{Bytes, codes, strip_prefix}
use witness.Std.Number.{parse_uint, u64}
use witness.Std.Trim.{trim}
use witness.Eventlog.{ApiKey, valid, validate_api_key, parse}

pub record AgentConfig : Type 0 where
  pub api_key : Bytes
  pub endpoint : Bytes
  pub server : Option Bytes
  pub eventlog_event_ids : Option Bytes
  pub multiline_start_pattern : Option Bytes

-- `toml::from_str`, and whether regex-lite compiles a pattern.
pub record Formats : Type 0 where
  pub from_str : Bytes → Option AgentConfig
  pub is_regex : Bytes → Bool

abbrev is_valid_key : ApiKey → Bool
is_valid_key valid = true
is_valid_key _ = false

abbrev are_valid_ids : Option Bytes → Bool
are_valid_ids none = true
are_valid_ids (some spec) = is_some (parse spec)

abbrev is_valid_pattern : (Bytes → Bool) → Option Bytes → Bool
is_valid_pattern is_regex none = true
is_valid_pattern is_regex (some p) = is_regex p

-- What `parse_config` asks of a configuration that is well-formed TOML.
unfoldable pub is_acceptable : Formats → AgentConfig → Bool
unfolding validate_api_key parse
is_acceptable formats c =
    is_valid_key (validate_api_key c.api_key)
    && are_valid_ids c.eventlog_event_ids
    && is_valid_pattern formats.is_regex c.multiline_start_pattern

unfoldable pub parse_config : Formats → Bytes → Option AgentConfig
unfolding is_acceptable
parse_config formats contents = elim (formats.from_str contents) [
  | none ↦ none
  | some c ↦ if is_acceptable formats c then some c else none
]

unfoldable pub strip_suffix : Bytes → Bytes → Option Bytes
unfolding strip_prefix
strip_suffix suffix s = elim (strip_prefix (reverse suffix) (reverse s)) [
  | none ↦ none
  | some r ↦ some (reverse r)
]

abbrev scaled : ℕ → Option ℕ → Option ℕ
scaled seconds none = none
scaled seconds (some v) = some (1000 * ((v * seconds) % u64))

-- In milliseconds. The multiplication of seconds wraps around, as in a release build.
unfoldable pub parse_duration : Bytes → Option ℕ
unfolding trim strip_suffix parse_uint
parse_duration text =
    let s = trim text in
    if is_empty s then none else elim (strip_suffix (codes "ms") s) [
      | some n ↦ parse_uint u64 n
      | none ↦ elim (strip_suffix (codes "s") s) [
        | some n ↦ scaled 1 (parse_uint u64 n)
        | none ↦ elim (strip_suffix (codes "m") s) [
          | some n ↦ scaled 60 (parse_uint u64 n)
          | none ↦ elim (strip_suffix (codes "h") s) [
            | some n ↦ scaled 3600 (parse_uint u64 n)
            | none ↦ none
          ]
        ]
      ]
    ]
