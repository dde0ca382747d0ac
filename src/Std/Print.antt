-- ===== src/Std/Print.antt =====
-- A number in decimal, as `Display` writes it.
use witness.Prelude.{
  ℕ, zero, suc, ◌+◌, ◌-◌, ◌*◌, ◌/◌, ◌%◌, ◌≤◌, ◌<◌, ◌≡◌, refl, ap, ◌∙◌, inl, inr, true, false, some,
  [], ◌∷◌, arith, ltb, ◌==◌, if◌then◌else◌, ltb→lt, Bool-cases, length, any,
}
use witness.Prelude.Str.{Bytes, is_ascii_digit}
use witness.Std.Number.{digits, u64, parse_uint, digits_onto}

-- The digits of a number in front of a text.
unfoldable pub print_onto : ℕ → ℕ → Bytes → Bytes
print_onto zero n tail = tail
print_onto (suc k) n tail =
    let more = print_onto k (n / 10) ((b'0' + n % 10) ∷ tail) in
    if ltb n 10 then (b'0' + n) ∷ tail else more

-- Twenty digits are enough for a `u64`.
unfoldable pub print : ℕ → Bytes
unfolding print_onto
print n = print_onto 20 n []

abbrev below : ℕ → ℕ
below zero = 1
below (suc k) = 10 * below k

digit_step :
    (limit n d m : ℕ) (tail : Bytes)
    → d < 10
    → n * 10 + d ≡ m
    → m < limit
    → digits_onto limit n ((b'0' + d) ∷ tail) ≡ digits_onto limit m tail
unfolding digits_onto
digit_step limit n d m tail small at h = rw (value, is_digit, fits) refl
  where
    value : n * 10 + ((b'0' + d) - b'0') ≡ m
    value = omega (arith, at)

    is_digit : is_ascii_digit (b'0' + d) ≡ true
    is_digit = ground (arith, small)

    fits : ltb m limit ≡ true
    fits = ground (arith, h)

digits_onto-print :
    (limit k n : ℕ) (tail : Bytes)
    → n < limit
    → n < below k
    → digits_onto limit 0 (print_onto k n tail) ≡ digits_onto limit n tail
unfolding print_onto
digits_onto-print limit zero n tail h b = ap (λ m. digits_onto limit m tail) (omega arith)
digits_onto-print limit (suc k) n tail h b = elim (Bool-cases (ltb n 10)) [
  | inl e ↦ rw (e, print_onto) (digit_step limit 0 n n tail (ltb→lt n 10 e) (omega arith) h)
  | inr e ↦
      rw (e, print_onto)
        (digits_onto-print limit k (n / 10) ((b'0' + n % 10) ∷ tail) (omega arith) (omega arith)
          ∙ digit_step limit (n / 10) (n % 10) n tail (omega arith) (omega arith) h)
]

-- A character that is no digit does not come in.
print_onto-any :
    (c k n : ℕ) (tail : Bytes)
    → is_ascii_digit c ≡ false
    → any (λ x. x == c) tail ≡ false
    → any (λ x. x == c) (print_onto k n tail) ≡ false
unfolding print_onto
print_onto-any c zero n tail d h = h
print_onto-any c (suc k) n tail d h = elim (Bool-cases (ltb n 10)) [
  | inl e ↦ rw (e, print_onto) (other n (ltb→lt n 10 e))
  | inr e ↦
      rw (e, print_onto)
        (print_onto-any c k (n / 10) ((b'0' + n % 10) ∷ tail) d (other (n % 10) (omega arith)))
]
  where
    other : (i : ℕ) → i < 10 → any (λ x. x == c) ((b'0' + i) ∷ tail) ≡ false
    other i small = ground (arith, d, h)

pub print-any : (c n : ℕ) → is_ascii_digit c ≡ false → any (λ x. x == c) (print n) ≡ false
unfolding print
print-any c n d = print_onto-any c 20 n [] d refl

length-print_onto : (k n : ℕ) (tail : Bytes) → length tail ≤ length (print_onto k n tail)
unfolding print_onto
length-print_onto zero n tail = omega arith
length-print_onto (suc k) n tail = elim (Bool-cases (ltb n 10)) [
  | inl e ↦ rw (e, print_onto) (omega arith)
  | inr e ↦
      rw (e, print_onto) (omega (arith, length-print_onto k (n / 10) ((b'0' + n % 10) ∷ tail)))
]

length-print : (n : ℕ) → 0 < length (print n)
unfolding print print_onto
length-print n = elim (Bool-cases (ltb n 10)) [
  | inl e ↦ rw (e, print_onto) (omega arith)
  | inr e ↦ rw (e, print_onto) (length-print_onto 19 (n / 10) ((b'0' + n % 10) ∷ []))
]

parse_uint_plain :
    (limit : ℕ) (s : Bytes)
    → any (λ x. x == b'+') s ≡ false
    → 0 < length s
    → parse_uint limit s ≡ digits_onto limit 0 s
unfolding parse_uint digits
parse_uint_plain limit [] h p = absurd (omega arith)
parse_uint_plain limit (c ∷ cs) h p = elim (Bool-cases (c == b'+')) [
  | inl e ↦ cc (rw e at h)
  | inr e ↦ rw e
]

-- Every `u64` is parsed back from its decimal digits.
pub parse_uint-print : (n : ℕ) → n < u64 → parse_uint u64 (print n) ≡ some n
unfolding print digits_onto
parse_uint-print n h =
    parse_uint_plain u64 (print n) (print-any b'+' n refl) (length-print n)
    ∙ digits_onto-print u64 20 n [] h (omega (arith, h))
