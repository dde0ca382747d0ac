-- ===== src/Std/Split.antt =====
-- `str::lines`, `split_whitespace`, `split` and `split_once`.
use witness.Prelude.{
  ℕ, zero, suc, ◌≡◌, refl, sym, ap, ◌∙◌, inl, inr, false, Option, none, some, List, [], ◌∷◌, ◌++◌,
  reverse, ◌==◌, if◌then◌else◌, ==_iff, Bool-cases, any,
}
use witness.Prelude.Str.{Bytes}
use witness.Std.Trim.{white_1, white_2, white_3}

-- A text and the pieces behind it.
abbrev pub onto : ℕ → List Bytes → List Bytes
onto c [] = (c ∷ []) ∷ []
onto c (p ∷ ps) = (c ∷ p) ∷ ps

-- `split(',')` and its kind: one piece more than there are separators.
unfoldable pub split : ℕ → Bytes → List Bytes
split sep [] = [] ∷ []
split sep (c ∷ cs) = if c == sep then [] ∷ split sep cs else onto c (split sep cs)

unfoldable pub split_once : ℕ → Bytes → Option (Bytes × Bytes)
split_once sep [] = none
split_once sep (c ∷ cs) =
    let later = split_once sep cs in
    if c == sep then some ([], cs) else elim later [ none ↦ none | some (a, b) ↦ some (c ∷ a, b) ]

-- A line without its `\r`.
abbrev pub chomp : Bytes → Bytes
chomp [] = []
chomp (c ∷ []) = if c == b'\r' then [] else c ∷ []
chomp (c ∷ d ∷ s) = c ∷ chomp (d ∷ s)

-- The pieces between line feeds; an empty one at the end is none.
abbrev pub no_empty_end : List Bytes → List Bytes
no_empty_end [] = []
no_empty_end ([] ∷ []) = []
no_empty_end (p ∷ ps) = p ∷ no_empty_end ps

-- A piece that no line feed ends keeps its `\r`.
abbrev pub chomp_all : List Bytes → List Bytes
chomp_all [] = []
chomp_all (p ∷ []) = p ∷ []
chomp_all (p ∷ q ∷ ps) = chomp p ∷ chomp_all (q ∷ ps)

unfoldable pub lines : Bytes → List Bytes
unfolding split
lines s = no_empty_end (chomp_all (split b'\n' s))

-- The bytes of the White_Space character in front, or 0.
abbrev white_length : Bytes → ℕ
white_length [] = 0
white_length (a ∷ []) = if white_1 a then 1 else 0
white_length (a ∷ b ∷ []) = if white_1 a then 1 else if white_2 a b then 2 else 0
white_length (a ∷ b ∷ c ∷ s) =
    if white_1 a then 1 else if white_2 a b then 2 else if white_3 a b c then 3 else 0

abbrev add_word : Bytes → List Bytes → List Bytes
add_word [] ws = ws
add_word (c ∷ cs) ws = reverse (c ∷ cs) ∷ ws

-- `skip` bytes are left of a white character, and `word` is what was read of a word, backwards.
words : ℕ → Bytes → Bytes → List Bytes
words skip word [] = add_word word []
words (suc skip) word (c ∷ cs) = words skip word cs
words zero word (c ∷ cs) = elim (white_length (c ∷ cs)) [
  | zero ↦ words zero (c ∷ word) cs
  | suc n ↦ add_word word (words n [] cs)
]

unfoldable pub split_whitespace : Bytes → List Bytes
unfolding words
split_whitespace s = words 0 [] s

pub split-cons : (c : ℕ) (s : Bytes) → (p : Bytes) × (ps : List Bytes) × (split c s ≡ p ∷ ps)
unfolding split
split-cons c [] = ([], [], refl)
split-cons c (x ∷ xs) = elim (Bool-cases (x == c)) [
  | inl e ↦ ([], split c xs, rw e)
  | inr e ↦ let (p, ps, h) = split-cons c xs in (x ∷ p, ps, rw e (ap (onto x) h))
]

pub split-append : (c : ℕ) (a b : Bytes) → split c (a ++ c ∷ b) ≡ split c a ++ split c b
unfolding split
split-append c [] b = rw ((==_iff c c).1 refl)
split-append c (x ∷ xs) b = elim (Bool-cases (x == c)) [
  | inl e ↦ rw e (ap (◌∷◌ []) (split-append c xs b))
  | inr e ↦
      let (p, ps, h) = split-cons c xs in
      rw e (
        ap (onto x) (split-append c xs b)
        ∙ ap (λ q. onto x (q ++ split c b)) h
        ∙ ap (λ q. onto x q ++ split c b) (sym h))
]

-- A text that the separator does not stand in is one piece.
pub split_one : (c : ℕ) (s : Bytes) → any (λ x. x == c) s ≡ false → split c s ≡ s ∷ []
unfolding split
split_one c [] h = refl
split_one c (x ∷ xs) h = elim (Bool-cases (x == c)) [
  | inl e ↦ cc (rw e at h)
  | inr e ↦ rw e (ap (onto x) (split_one c xs (rw e at h)))
]

pub split_once_first :
    (c : ℕ) (a b : Bytes) → any (λ x. x == c) a ≡ false → split_once c (a ++ c ∷ b) ≡ some (a, b)
unfolding split_once
split_once_first c [] b h = rw ((==_iff c c).1 refl)
split_once_first c (x ∷ xs) b h = elim (Bool-cases (x == c)) [
  | inl e ↦ cc (rw e at h)
  | inr e ↦ rw (e, split_once_first c xs b (rw e at h))
]

pub chomp_kept : (s : Bytes) → any (λ x. x == b'\r') s ≡ false → chomp s ≡ s
chomp_kept [] h = refl
chomp_kept (c ∷ []) h = elim (Bool-cases (c == b'\r')) [ inl e ↦ cc (rw e at h) | inr e ↦ rw e ]
chomp_kept (c ∷ d ∷ s) h = elim (Bool-cases (c == b'\r')) [
  | inl e ↦ cc (rw e at h)
  | inr e ↦ ap (◌∷◌ c) (chomp_kept (d ∷ s) (rw e at h))
]

twice :
    split_whitespace (b' ' ∷ b'a' ∷ b'b' ∷ b' ' ∷ b'\n' ∷ b'c' ∷ [])
    ≡ (b'a' ∷ b'b' ∷ []) ∷ (b'c' ∷ []) ∷ []
unfolding split_whitespace
twice = refl

three :
    lines (b'a' ∷ b'\r' ∷ b'\n' ∷ b'\n' ∷ b'c' ∷ b'\r' ∷ [])
    ≡ (b'a' ∷ []) ∷ [] ∷ (b'c' ∷ b'\r' ∷ []) ∷ []
unfolding lines
three = refl
