-- ===== src/Structured/Severity.antt =====
-- src/logs/structured.rs: severity from a name, a number or a token at the start of a line.
pub mod Tokens
use witness.Prelude.{
  ℕ, zero, suc, Bool, true, false, ◌||◌, Option, none, some, List, [], ◌∷◌, map, ◌==◌,
  if◌then◌else◌, take, get_elem?,
}
use witness.Prelude.Str.{Bytes, codes, is_ascii_alphanumeric, to_ascii_lower, eqb}
use witness.Std.Scan.{span}
use witness.Std.Trim.{trim}
use witness.Std.Number.{parse_uint, u64}
use witness.Level.{LogLevel, emergency, alert, critical, error, warning, notice, info, debug}

-- A numeric syslog priority.
unfoldable pub numeric_level : ℕ → Option LogLevel
numeric_level n =
    get_elem? (emergency ∷ alert ∷ critical ∷ error ∷ warning ∷ notice ∷ info ∷ debug ∷ []) n

-- The level that stands beside the first of the names that fits.
unfoldable pub named : List (Bytes × LogLevel) → Bytes → Option LogLevel
unfolding eqb
named [] w = none
named ((n, l) ∷ rest) w = if eqb n w then some l else named rest w

abbrev pub level_names : List (Bytes × LogLevel)
level_names =
    (codes "trace", debug)
    ∷ (codes "debug", debug)
    ∷ (codes "info", info)
    ∷ (codes "notice", notice)
    ∷ (codes "warn", warning)
    ∷ (codes "warning", warning)
    ∷ (codes "err", error)
    ∷ (codes "error", error)
    ∷ (codes "crit", critical)
    ∷ (codes "critical", critical)
    ∷ (codes "fatal", critical)
    ∷ (codes "panic", critical)
    ∷ []

unfoldable pub level_from_str : Bytes → Option LogLevel
unfolding trim parse_uint numeric_level named
level_from_str s = elim (parse_uint u64 (trim s)) [
  | some n ↦ numeric_level n
  | none ↦ named level_names (map to_ascii_lower (trim s))
]

abbrev pub level_scan_window : ℕ
level_scan_window = 96

unfoldable pub is_word_byte : ℕ → Bool
is_word_byte b = is_ascii_alphanumeric b || b == b'_'

abbrev pub level_tokens : List (Bytes × LogLevel)
level_tokens =
    (codes "TRACE", debug)
    ∷ (codes "trace", debug)
    ∷ (codes "DEBUG", debug)
    ∷ (codes "debug", debug)
    ∷ (codes "INFO", info)
    ∷ (codes "info", info)
    ∷ (codes "NOTICE", notice)
    ∷ (codes "notice", notice)
    ∷ (codes "WARN", warning)
    ∷ (codes "warn", warning)
    ∷ (codes "WARNING", warning)
    ∷ (codes "warning", warning)
    ∷ (codes "ERR", error)
    ∷ (codes "err", error)
    ∷ (codes "ERROR", error)
    ∷ (codes "error", error)
    ∷ (codes "CRIT", critical)
    ∷ (codes "crit", critical)
    ∷ (codes "CRITICAL", critical)
    ∷ (codes "critical", critical)
    ∷ (codes "FATAL", critical)
    ∷ (codes "fatal", critical)
    ∷ (codes "PANIC", critical)
    ∷ (codes "panic", critical)
    ∷ []

unfoldable pub level_for_token : Bytes → Option LogLevel
unfolding named
level_for_token = named level_tokens

-- The loop over the window, on fuel: each round reads a byte at least.
unfoldable pub scan_window : ℕ → Bytes → Option LogLevel
unfolding level_for_token span is_word_byte
scan_window zero w = none
scan_window (suc fuel) [] = none
scan_window (suc fuel) (c ∷ cs) = elim (is_word_byte c) [
  | false ↦ scan_window fuel cs
  | true ↦
      let (word, rest) = span is_word_byte (c ∷ cs) in
      let later = scan_window fuel rest in
      elim (level_for_token word) [ some l ↦ some l | none ↦ later ]
]

unfoldable pub scan_line_level : Bytes → Option LogLevel
unfolding scan_window
scan_line_level line = scan_window (suc level_scan_window) (take level_scan_window line)
