-- ===== src/Utf8.antt =====
-- What the standard library does with UTF-8, as far as the agent relies on it:
-- `String::from_utf8_lossy`, `str::from_utf8` and `str::floor_char_boundary`.
pub mod Laws
use witness.Prelude.{
  ℕ, zero, suc, ◌+◌, ◌-◌, Bool, true, false, not, ◌&&◌, ◌||◌, List, [], ◌∷◌, ◌++◌, Option, none,
  some, ltb, leb, ◌==◌, if◌then◌else◌, length, take, get_elem?,
}
use witness.Prelude.Str.{Bytes, within}

-- U+FFFD REPLACEMENT CHARACTER.
abbrev pub replacement : Bytes
replacement = 0xEF ∷ 0xBF ∷ 0xBD ∷ []

-- Between two characters, or inside one: the bytes still to come, the range that the next one
-- must lie in, and the bytes read so far.
pub data Decode : Type 0 where
  between : Decode
  inside : ℕ → ℕ → ℕ → Bytes → Decode

-- What the first byte of a character asks of the next ones (how many, and the range of the next); `none` if no character begins with it.
unfoldable pub lead : ℕ → Option (ℕ × ℕ × ℕ)
lead c =
    if within 0xC2 0xDF c
    then some (1, 0x80, 0xBF)
    else if c == 0xE0
    then some (2, 0xA0, 0xBF)
    else if c == 0xED
    then some (2, 0x80, 0x9F)
    else if within 0xE1 0xEF c
    then some (2, 0x80, 0xBF)
    else if c == 0xF0
    then some (3, 0x90, 0xBF)
    else if within 0xF1 0xF3 c
    then some (3, 0x80, 0xBF)
    else if c == 0xF4
    then some (3, 0x80, 0x8F)
    else none

-- One byte at the start of a character: what is written, whether the byte is refused, and the
-- state behind it.
abbrev pub lead_or : ℕ → Option (ℕ × ℕ × ℕ) → Bytes × Bool × Decode
lead_or c none = (replacement, true, between)
lead_or c (some (n, lo, hi)) = ([], false, inside n lo hi (c ∷ []))

unfoldable pub begin : ℕ → Bytes × Bool × Decode
unfolding lead
begin c = elim (ltb c 0x80) [ true ↦ (c ∷ [], false, between) | false ↦ lead_or c (lead c) ]

-- A byte inside a character: whether it fits, and whether it is the last one.
unfoldable pub resume : Bool → Bool → ℕ → Bytes → ℕ → Bytes × Bool × Decode
resume false _ n seen c = (replacement ++ (begin c).0, true, (begin c).2)
resume true true n seen c = (seen ++ c ∷ [], false, between)
resume true false n seen c = ([], false, inside (n - 1) 0x80 0xBF (seen ++ c ∷ []))

-- A byte that does not continue the character replaces what was read of it, and begins anew.
unfoldable pub decode_byte : Decode → ℕ → Bytes × Bool × Decode
unfolding begin resume
decode_byte between c = begin c
decode_byte (inside n lo hi seen) c = resume (within lo hi c) (leb n 1) n seen c

unfoldable pub lossy_from : Decode → Bytes → Bytes
unfolding decode_byte
lossy_from between [] = []
lossy_from (inside _ _ _ _) [] = replacement
lossy_from d (c ∷ cs) = let (out, _, d') = decode_byte d c in out ++ lossy_from d' cs

unfoldable pub valid_from : Decode → Bytes → Bool
unfolding decode_byte
valid_from between [] = true
valid_from (inside _ _ _ _) [] = false
valid_from d (c ∷ cs) = let (_, refused, d') = decode_byte d c in not refused && valid_from d' cs

-- `String::from_utf8_lossy`.
unfoldable pub from_utf8_lossy : Bytes → Bytes
unfolding lossy_from
from_utf8_lossy = lossy_from between

-- `str::from_utf8(..).is_ok()`.
unfoldable pub is_utf8 : Bytes → Bool
unfolding valid_from
is_utf8 = valid_from between

-- The end of the text, or a byte that does not continue a character.
unfoldable pub is_char_boundary : Bytes → ℕ → Bool
is_char_boundary s i = elim (get_elem? s i) [
  | none ↦ i == length s
  | some c ↦ not (within 0x80 0xBF c)
]

-- The greatest boundary that is at most `i`.
unfoldable pub boundary_below : Bytes → ℕ → ℕ
unfolding is_char_boundary
boundary_below s zero = zero
boundary_below s (suc i) = elim (is_char_boundary s (suc i)) [
  | true ↦ suc i
  | false ↦ boundary_below s i
]

unfoldable pub floor_char_boundary : Bytes → ℕ → ℕ
unfolding boundary_below
floor_char_boundary s i = if leb (length s) i then length s else boundary_below s i

-- `s.truncate(s.floor_char_boundary(limit))`, and the cut that is made only of a text over the limit.
unfoldable pub truncate_to : ℕ → Bytes → Bytes
unfolding floor_char_boundary
truncate_to limit s = if ltb limit (length s) then take (floor_char_boundary s limit) s else s
