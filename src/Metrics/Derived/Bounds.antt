-- ===== src/Metrics/Derived/Bounds.antt =====
-- src/metrics/derived.rs: the number of CPUs.
use witness.Prelude.{
  ℕ, ◌+◌, ◌-◌, ◌≤◌, ◌<◌, subst, inl, inr, Option, none, some, List, [], ◌∷◌, arith, ltb, leb,
  ltb→lt, Bool-cases, Option-cases, length, is_empty,
}
use witness.Prelude.Str.{Bytes}
use witness.Std.Trim.{trim}
use witness.Std.Split.{split, split_once}
use witness.Std.Number.{parse_uint, u64}
use witness.Metrics.Derived.{checked_add, range_size, count_cpu_range, count_parts, count_cpu_list}

-- At least so many, if any.
abbrev pub IsCount : ℕ → Option ℕ → Type 0
IsCount least none = Unit
IsCount least (some n) = (least ≤ n) × (n < u64)

checked_add-IsCount : (a b : ℕ) → IsCount (a + b) (checked_add a b)
checked_add-IsCount a b = elim (Bool-cases (ltb (a + b) u64)) [
  | inl e ↦ rw e (omega arith, ltb→lt (a + b) u64 e)
  | inr e ↦ rw e tt
]

range_size-IsCount : (lo hi : ℕ) → IsCount 1 (range_size lo hi)
range_size-IsCount lo hi = elim (Bool-cases (leb lo hi)) [
  | inl e ↦ rw e (less (checked_add (hi - lo) 1) (checked_add-IsCount (hi - lo) 1))
  | inr e ↦ rw e tt
]
  where
    less : (o : Option ℕ) → IsCount (hi - lo + 1) o → IsCount 1 o
    less none h = tt
    less (some n) (h, k) = (omega arith, k)

count_cpu_range-IsCount : (part : Bytes) → IsCount 1 (count_cpu_range part)
unfolding count_cpu_range
count_cpu_range-IsCount part = elim (Option-cases (split_once b'-' part)) [
  | inl e ↦ elim (Option-cases (parse_uint u64 part)) [
    | inl i ↦ rw (e, i, count_cpu_range) tt
    | inr (n, i) ↦ rw (e, i, count_cpu_range) (omega arith, omega arith)
  ]
  | inr ((lo, hi), e) ↦ elim (Option-cases (parse_uint u64 lo)) [
    | inl i ↦ rw (e, i, count_cpu_range) tt
    | inr (l, i) ↦ elim (Option-cases (parse_uint u64 hi)) [
      | inl j ↦ rw (e, i, j, count_cpu_range) tt
      | inr (h, j) ↦ rw (e, i, j, count_cpu_range) (range_size-IsCount l h)
    ]
  ]
]

-- One CPU for each part at least.
count_parts-IsCount :
    (acc : ℕ) (parts : List Bytes)
    → acc < u64
    → IsCount (acc + length parts) (count_parts acc parts)
unfolding count_parts
count_parts-IsCount acc [] h = (omega arith, h)
count_parts-IsCount acc (part ∷ parts) h = elim (Option-cases (count_cpu_range (trim part))) [
  | inl e ↦ rw (e, count_parts) tt
  | inr (n, e) ↦
      let one = subst (IsCount 1) e (count_cpu_range-IsCount (trim part)) in
      elim (Option-cases (checked_add acc n)) [
        | inl i ↦ rw (e, i, count_parts) tt
        | inr (m, i) ↦
            let sum = subst (IsCount (acc + n)) i (checked_add-IsCount acc n) in
            rw (e, i, count_parts)
              (more m n one.0 sum.0 (count_parts m parts) (count_parts-IsCount m parts sum.1))
      ]
]
  where
    more :
        (m n : ℕ)
        → 1 ≤ n
        → acc + n ≤ m
        → (o : Option ℕ) → IsCount (m + length parts) o
        → IsCount (acc + length (part ∷ parts)) o
    more m n one sum none k = tt
    more m n one sum (some i) (k, l) = (omega arith, l)

-- A list of CPUs that is counted has at least one for each of its parts, and its number does not
-- overflow.
pub count_cpu_list-IsCount :
    (list : Bytes) → IsCount (length (split b',' (trim list))) (count_cpu_list list)
unfolding count_cpu_list
count_cpu_list-IsCount list = elim (Bool-cases (is_empty (trim list))) [
  | inl e ↦ rw (e, count_cpu_list) tt
  | inr e ↦
      rw (e, count_cpu_list)
        (counted _ (count_parts-IsCount 0 (split b',' (trim list)) (omega arith)))
]
  where
    counted :
        (o : Option ℕ)
        → IsCount (0 + length (split b',' (trim list))) o
        → IsCount (length (split b',' (trim list))) o
    counted o h = subst (λ n. IsCount n o) (omega arith) h
