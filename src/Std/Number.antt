-- ===== src/Std/Number.antt =====
-- `str::parse` into an unsigned integer.
use witness.Prelude.{
  ℕ, ◌+◌, ◌-◌, ◌*◌, ◌<◌, ◌≡◌, inl, inr, ◌&&◌, Option, none, some, [], ◌∷◌, arith, ltb, ◌==◌,
  if◌then◌else◌, Bool-cases,
}
use witness.Prelude.Str.{Bytes, is_ascii_digit}

-- Digits on top of a value; `none` on another byte, or past the limit.
unfoldable pub digits_onto : ℕ → ℕ → Bytes → Option ℕ
digits_onto limit n [] = some n
digits_onto limit n (c ∷ cs) =
    let more = digits_onto limit (n * 10 + (c - b'0')) cs in
    if is_ascii_digit c && ltb (n * 10 + (c - b'0')) limit then more else none

unfoldable pub digits : ℕ → Bytes → Option ℕ
digits limit [] = none
digits limit (c ∷ cs) = digits_onto limit 0 (c ∷ cs)

-- `s.parse::<uN>()` with `limit` 2 ^ N: an optional `+`, then digits.
unfoldable pub parse_uint : ℕ → Bytes → Option ℕ
unfolding digits digits_onto
parse_uint limit [] = none
parse_uint limit (c ∷ cs) = if c == b'+' then digits limit cs else digits limit (c ∷ cs)

abbrev pub u64 : ℕ
u64 = 18446744073709551616

abbrev pub u32 : ℕ
u32 = 4294967296

digits_onto-lt :
    (limit n m : ℕ) (s : Bytes) → n < limit → digits_onto limit n s ≡ some m → m < limit
unfolding digits_onto
digits_onto-lt limit n m [] h e = ground arith
digits_onto-lt limit n m (c ∷ cs) h e =
    ground (arith, digits_onto-lt limit (n * 10 + (c - b'0')) m cs)

digits-lt : (limit : ℕ) (s : Bytes) {m : ℕ} → 0 < limit → digits limit s ≡ some m → m < limit
unfolding digits
digits-lt limit [] h e = cc
digits-lt limit (c ∷ cs) {m} h e = digits_onto-lt limit 0 m (c ∷ cs) h e

-- What is parsed fits the type.
pub parse_uint-lt :
    (limit : ℕ) (s : Bytes) {m : ℕ} → 0 < limit → parse_uint limit s ≡ some m → m < limit
unfolding parse_uint
parse_uint-lt limit [] h e = cc
parse_uint-lt limit (c ∷ cs) h e = elim (Bool-cases (c == b'+')) [
  | inl p ↦ digits-lt limit cs h (rw p at e)
  | inr p ↦ digits-lt limit (c ∷ cs) h (rw p at e)
]
