-- ===== src/Metrics/Filter.antt =====
-- src/config.rs, src/metrics/disk_space.rs: which devices and file systems are reported.
use witness.Prelude.{
  Bool, not, ◌&&◌, ◌||◌, Option, none, some, List, [], ◌∷◌, if◌then◌else◌, any, is_empty,
}
use witness.Prelude.Str.{Bytes}

-- The glob crate: a pattern is what it matches, and `new` fails on a malformed one.
pub record Globs : Type 1 where
  pub Pattern : Type 0
  pub pattern : Bytes → Option Pattern
  pub pattern_matches : Pattern → Bytes → Bool

pub record FilterConfig : Type 0 where
  pub include : List Bytes
  pub exclude : List Bytes

module _ (globs : Globs) where
  open globs use {Pattern}

  pub record DeviceFilter : Type 0 where
    pub includes : List Pattern
    pub excludes : List Pattern

  unfoldable pub compile : List Bytes → List Pattern
  compile [] = []
  compile (s ∷ ss) = elim (globs.pattern s) [ none ↦ compile ss | some p ↦ p ∷ compile ss ]

  unfoldable pub new_filter : FilterConfig → List Bytes → DeviceFilter
  unfolding compile
  new_filter config default_exclude = record {
    includes = compile config.include;
    excludes = compile (if is_empty config.exclude then default_exclude else config.exclude);
  }

  abbrev matches_any : List Pattern → Bytes → Bool
  matches_any ps name = any (λ p. globs.pattern_matches p name) ps

  unfoldable pub allows : DeviceFilter → Bytes → Bool
  allows f name =
      (is_empty f.includes || matches_any f.includes name) && not (matches_any f.excludes name)
