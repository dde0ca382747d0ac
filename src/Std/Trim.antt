-- ===== src/Std/Trim.antt =====
-- `str::trim_start`, `trim_end` and `trim`: the Unicode White_Space characters in UTF-8.
use witness.Prelude.{ℕ, Bool, true, false, ◌&&◌, ◌||◌, [], ◌∷◌, reverse, ◌==◌, if◌then◌else◌}
use witness.Prelude.Str.{Bytes, within}

abbrev pub white_1 : ℕ → Bool
white_1 a = within 9 13 a || a == b' '

-- U+0085 and U+00A0.
abbrev pub white_2 : ℕ → ℕ → Bool
white_2 a b = a == 0xC2 && (b == 0x85 || b == 0xA0)

-- U+1680, U+2000 to U+200A, U+2028, U+2029, U+202F, U+205F and U+3000.
abbrev pub white_3 : ℕ → ℕ → ℕ → Bool
white_3 a b c =
    (a == 0xE1 && b == 0x9A && c == 0x80)
    || (a == 0xE2 && b == 0x80 && (within 0x80 0x8A c || c == 0xA8 || c == 0xA9 || c == 0xAF))
    || (a == 0xE2 && b == 0x81 && c == 0x9F)
    || (a == 0xE3 && b == 0x80 && c == 0x80)

-- Strip characters from the front, as long as they are white, under the given order of bytes.
strip : (ℕ → ℕ → Bool) → (ℕ → ℕ → ℕ → Bool) → Bytes → Bytes
strip two three [] = []
strip two three (a ∷ []) = if white_1 a then [] else a ∷ []
strip two three (a ∷ b ∷ []) = elim (white_1 a) [
  | true ↦ strip two three (b ∷ [])
  | false ↦ if two a b then [] else a ∷ b ∷ []
]
strip two three (a ∷ b ∷ c ∷ s) = elim (white_1 a) [
  | true ↦ strip two three (b ∷ c ∷ s)
  | false ↦ elim (two a b) [
    | true ↦ strip two three (c ∷ s)
    | false ↦ elim (three a b c) [ true ↦ strip two three s | false ↦ a ∷ b ∷ c ∷ s ]
  ]
]

unfoldable pub trim_start : Bytes → Bytes
unfolding strip
trim_start = strip white_2 white_3

unfoldable pub trim_end : Bytes → Bytes
unfolding strip
trim_end s = reverse (strip (λ b a. white_2 a b) (λ c b a. white_3 a b c) (reverse s))

unfoldable pub trim : Bytes → Bytes
unfolding trim_start trim_end
trim s = trim_end (trim_start s)
