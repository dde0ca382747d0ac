-- ===== src/Eventlog/Ranges.antt =====
-- src/logs/eventlog_filter.rs, src/config.rs: the ranges of a filter, and the key.
use witness.Prelude.{
  ℕ, ◌≤◌, ◌<◌, ◌≡◌, refl, subst, ◌↔◌, inl, inr, true, false, Option, none, some, List, [], ◌∷◌,
  ◌++◌, arith, ltb, ◌==◌, ==_iff, Bool-cases, Option-cases, length, all, All,
}
use witness.Prelude.Str.{Bytes, is_ascii_hexdigit}
use witness.Std.Trim.{trim}
use witness.Std.Split.{split, split_once}
use witness.Std.Number.{parse_uint-lt, u32}
use witness.Eventlog.{
  EventIdFilter, parse_id, range_of, parse_range, include_to, exclude_to, add_token, add_tokens,
  no_filter, parse, validate_api_key, valid, missing,
}

-- A range of `u32`s that is not empty.
abbrev pub IsRange : ℕ × ℕ → Type 0
IsRange r = (r.0 ≤ r.1) × (r.1 < u32)

abbrev pub IsOrdered : EventIdFilter → Type 0
IsOrdered f = All IsRange f.includes × All IsRange f.excludes

abbrev OptionIsRange : Option (ℕ × ℕ) → Type 0
OptionIsRange none = Unit
OptionIsRange (some r) = IsRange r

abbrev OptionIsOrdered : Option EventIdFilter → Type 0
OptionIsOrdered none = Unit
OptionIsOrdered (some f) = IsOrdered f

parse_id-lt : (s : Bytes) (n : ℕ) → parse_id s ≡ some n → n < u32
unfolding parse_id
parse_id-lt s n h = parse_uint-lt u32 (trim s) (omega arith) h

range_of-IsRange : (lo hi : ℕ) → hi < u32 → OptionIsRange (range_of lo hi)
range_of-IsRange lo hi h = elim (Bool-cases (ltb hi lo)) [
  | inl e ↦ rw e tt
  | inr e ↦ rw e (ordered e, h)
]
  where
    ordered : ltb hi lo ≡ false → lo ≤ hi
    ordered e = ground arith

parse_range-IsRange : (body : Bytes) → OptionIsRange (parse_range body)
unfolding parse_range
parse_range-IsRange body = elim (Option-cases (split_once b'-' body)) [
  | inl e ↦ elim (Option-cases (parse_id body)) [
    | inl i ↦ rw (e, i, parse_range) tt
    | inr (n, i) ↦ rw (e, i, parse_range) (omega arith, parse_id-lt body n i)
  ]
  | inr ((a, b), e) ↦ elim (Option-cases (parse_id a)) [
    | inl i ↦ rw (e, i, parse_range) tt
    | inr (lo, i) ↦ elim (Option-cases (parse_id b)) [
      | inl j ↦ rw (e, i, j, parse_range) tt
      | inr (hi, j) ↦ rw (e, i, j, parse_range) (range_of-IsRange lo hi (parse_id-lt b hi j))
    ]
  ]
]

All-snoc : (rs : List (ℕ × ℕ)) (r : ℕ × ℕ) → All IsRange rs → IsRange r → All IsRange (rs ++ r ∷ [])
All-snoc [] r a h = (h, tt)
All-snoc (q ∷ qs) r (b, a) h = (b, All-snoc qs r a h)

include_to-IsOrdered :
    (o : Option (ℕ × ℕ)) (f : EventIdFilter)
    → OptionIsRange o
    → IsOrdered f
    → OptionIsOrdered (include_to o f)
include_to-IsOrdered none f r h = tt
include_to-IsOrdered (some o) f r h = (All-snoc f.includes o h.0 r, h.1)

exclude_to-IsOrdered :
    (o : Option (ℕ × ℕ)) (f : EventIdFilter)
    → OptionIsRange o
    → IsOrdered f
    → OptionIsOrdered (exclude_to o f)
exclude_to-IsOrdered none f r h = tt
exclude_to-IsOrdered (some o) f r h = (h.0, All-snoc f.excludes o h.1 r)

add_token-IsOrdered :
    (t : Bytes) (f : EventIdFilter) → IsOrdered f → OptionIsOrdered (add_token t f)
unfolding add_token
add_token-IsOrdered [] f h = h
add_token-IsOrdered (c ∷ cs) f h = elim (Bool-cases (c == b'-')) [
  | inl e ↦ rw e (exclude_to-IsOrdered (parse_range (trim cs)) f (parse_range-IsRange (trim cs)) h)
  | inr e ↦ rw e (include_to-IsOrdered (parse_range (c ∷ cs)) f (parse_range-IsRange (c ∷ cs)) h)
]

add_tokens-IsOrdered :
    (ts : List Bytes) (f : EventIdFilter) → IsOrdered f → OptionIsOrdered (add_tokens ts f)
unfolding add_tokens
add_tokens-IsOrdered [] f h = h
add_tokens-IsOrdered (t ∷ ts) f h = elim (Option-cases (add_token (trim t) f)) [
  | inl e ↦ rw (e, add_tokens) tt
  | inr (g, e) ↦
      rw (e, add_tokens)
        (add_tokens-IsOrdered ts g (subst OptionIsOrdered e (add_token-IsOrdered (trim t) f h)))
]

-- Every range of a filter that is accepted has its ends in order, and they are `u32`s.
pub parse-IsOrdered : (spec : Bytes) (f : EventIdFilter) → parse spec ≡ some f → IsOrdered f
unfolding parse
parse-IsOrdered spec f h =
    subst OptionIsOrdered h (add_tokens-IsOrdered (split b',' spec) no_filter (tt, tt))

-- A key is accepted exactly when it consists of 32 hexadecimal digits.
pub validate_api_key_iff :
    (key : Bytes)
    → (validate_api_key key ≡ valid) ↔ ((length key ≡ 32) × (all is_ascii_hexdigit key ≡ true))
unfolding validate_api_key
validate_api_key_iff [] = ((λ e. absurd (not_valid e)), (λ h. absurd (omega (arith, h.0))))
  where
    not_valid : missing ≡ valid → ⊥
    not_valid e = cc
validate_api_key_iff (c ∷ cs) = elim (Bool-cases (length (c ∷ cs) == 32)) [
  | inr e ↦ rw e ((λ h. cc), (λ h. absurd (not_equal e h.0)))
  | inl e ↦ elim (Bool-cases (all is_ascii_hexdigit (c ∷ cs))) [
    | inl a ↦ rw (e, a) ((λ h. ((==_iff (length (c ∷ cs)) 32).0 e, refl)), (λ h. refl))
    | inr a ↦ rw (e, a) ((λ h. cc), (λ h. cc))
  ]
]
  where
    not_equal : (length (c ∷ cs) == 32) ≡ false → length (c ∷ cs) ≡ 32 → ⊥
    not_equal e h = ground arith
