-- ===== src/Structured/Logfmt/Fuel.antt =====
-- src/logs/structured.rs: the bytes that a round of `parse_logfmt_fields` reads.
use witness.Prelude.{ℕ, ◌≤◌, ◌<◌, ◌≡◌, ap, false, [], ◌∷◌, ◌++◌, arith, length, length-append}
use witness.Prelude.Str.{Bytes}
use witness.Std.Scan.{span, skip_while, length-skip_while, length-span, span-append}
use witness.Structured.Logfmt.{
  is_logfmt_key_byte, quoted, not_space, value, field_behind, field, is_space,
}

length-quoted : (s : Bytes) → length (quoted s).1 ≤ length s
unfolding quoted
length-quoted [] = omega arith
length-quoted (c ∷ []) = ground arith
length-quoted (c ∷ d ∷ r) = ground (arith, length-quoted r, length-quoted (d ∷ r))

length-value : (s : Bytes) → length (value s).1 ≤ length s
unfolding value
length-value [] = omega arith
length-value (c ∷ cs) = ground (arith, length-quoted cs, length-span not_space (c ∷ cs))

length-field_behind : (k s : Bytes) → length (field_behind k s).1 ≤ length s
unfolding field_behind
length-field_behind k [] = omega arith
length-field_behind [] (c ∷ cs) = length-skip_while not_space (c ∷ cs)
length-field_behind (k ∷ ks) (c ∷ cs) =
    ground (arith, length-value cs, length-skip_while not_space (c ∷ cs))

-- A malformed word that does not begin with a space is not empty.
length-field_malformed :
    (c : ℕ) (cs : Bytes)
    → is_space c ≡ false
    → length (field_behind [] (c ∷ cs)).1 < length (c ∷ cs)
unfolding field_behind skip_while
length-field_malformed c cs h = ground (arith, length-skip_while not_space cs)

length-field_at :
    (k r : Bytes) (c : ℕ) (cs : Bytes)
    → k ++ r ≡ c ∷ cs
    → is_space c ≡ false
    → length (field_behind k r).1 < length (c ∷ cs)
length-field_at [] r c cs e h = rw e (length-field_malformed c cs h)
length-field_at (k ∷ ks) r c cs e h =
    omega (arith, length-field_behind (k ∷ ks) r, ap length e, length-append {0} ks r)

pub length-field :
    (c : ℕ) (cs : Bytes) → is_space c ≡ false → length (field (c ∷ cs)).1 < length (c ∷ cs)
unfolding field
length-field c cs h =
    length-field_at (span is_logfmt_key_byte (c ∷ cs)).0 (span is_logfmt_key_byte (c ∷ cs)).1 c cs
      (span-append is_logfmt_key_byte (c ∷ cs)) h

abbrev StartsPlain : Bytes → Type 0
StartsPlain [] = Unit
StartsPlain (c ∷ cs) = is_space c ≡ false
