-- ===== src/Metrics/Derived.antt =====
-- src/metrics/derived.rs: counting CPUs.
pub mod Bounds
use witness.Prelude.{
  ℕ, ◌+◌, ◌-◌, Option, none, some, List, [], ◌∷◌, ltb, leb, if◌then◌else◌, is_empty,
}
use witness.Prelude.Str.{Bytes}
use witness.Std.Trim.{trim}
use witness.Std.Split.{split, split_once}
use witness.Std.Number.{parse_uint, u64}

abbrev pub checked_add : ℕ → ℕ → Option ℕ
checked_add a b = if ltb (a + b) u64 then some (a + b) else none

-- `hi.checked_sub(lo)?.checked_add(1)`.
abbrev pub range_size : ℕ → ℕ → Option ℕ
range_size lo hi = if leb lo hi then checked_add (hi - lo) 1 else none

unfoldable pub count_cpu_range : Bytes → Option ℕ
unfolding split_once parse_uint
count_cpu_range part = elim (split_once b'-' part) [
  | none ↦ elim (parse_uint u64 part) [ none ↦ none | some n ↦ some 1 ]
  | some (lo, hi) ↦ elim (parse_uint u64 lo) [
    | none ↦ none
    | some l ↦ elim (parse_uint u64 hi) [ none ↦ none | some h ↦ range_size l h ]
  ]
]

-- The `try_fold` over the parts.
unfoldable pub count_parts : ℕ → List Bytes → Option ℕ
unfolding count_cpu_range trim
count_parts acc [] = some acc
count_parts acc (part ∷ parts) = elim (count_cpu_range (trim part)) [
  | none ↦ none
  | some n ↦ elim (checked_add acc n) [ none ↦ none | some m ↦ count_parts m parts ]
]

unfoldable pub count_cpu_list : Bytes → Option ℕ
unfolding trim split count_parts
count_cpu_list list = if is_empty (trim list) then none else count_parts 0 (split b',' (trim list))
