-- ===== src/Text/Lines.antt =====
-- src/logs/text.rs: bytes split into lines, each with its newline.
use witness.Prelude.{
  ℕ, suc, ◌≡◌, refl, ap, inl, inr, Bool, false, Option, none, some, List, [], ◌∷◌, ◌++◌, arith,
  ◌==◌, if◌then◌else◌, Bool-cases, take, drop,
}
use witness.Prelude.Str.{Bytes}
use witness.Crates.{position, option_suc}

-- Up to and including the first newline; all of it if there is none.
unfoldable pub first_line : Bytes → Bytes
first_line [] = []
first_line (c ∷ cs) = c ∷ (if c == b'\n' then [] else first_line cs)

unfoldable pub after_line : Bytes → Bytes
after_line [] = []
after_line (c ∷ cs) = if c == b'\n' then cs else after_line cs

abbrev pub is_newline : ℕ → Bool
is_newline c = c == b'\n'

-- `buf.last() == Some(&b'\n')`.
abbrev pub ends_line : Bytes → Bool
ends_line [] = false
ends_line (c ∷ []) = is_newline c
ends_line (c ∷ d ∷ ds) = ends_line (d ∷ ds)

abbrev pub push_front : ℕ → List Bytes → List Bytes
push_front c [] = (c ∷ []) ∷ []
push_front c (l ∷ ls) = (c ∷ l) ∷ ls

unfoldable pub split_lines : Bytes → List Bytes
split_lines [] = []
split_lines (c ∷ cs) =
    if c == b'\n' then (c ∷ []) ∷ split_lines cs else push_front c (split_lines cs)

pub first-append-after : (s : Bytes) → first_line s ++ after_line s ≡ s
unfolding first_line after_line
first-append-after [] = refl
first-append-after (c ∷ cs) = ground (arith, first-append-after cs)

pub split_lines_step :
    (c : ℕ) (cs : Bytes)
    → split_lines (c ∷ cs) ≡ first_line (c ∷ cs) ∷ split_lines (after_line (c ∷ cs))
unfolding split_lines first_line after_line
split_lines_step c [] = ground arith
split_lines_step c (d ∷ ds) = elim (Bool-cases (c == b'\n')) [
  | inl line ↦ rw line
  | inr more ↦ rw more (ap (push_front c) (split_lines_step d ds))
]

option_suc-some :
    (o : Option ℕ) {i : ℕ} → option_suc o ≡ some i → (j : ℕ) × (o ≡ some j) × (i ≡ suc j)
option_suc-some none h = cc
option_suc-some (some j) h = (j, refl, cc)

option_suc-none : (o : Option ℕ) → option_suc o ≡ none → o ≡ none
option_suc-none none h = refl
option_suc-none (some j) h = cc

-- A newline at `i` ends the first line there.
pub first_line-position :
    (a d : Bytes) (i : ℕ)
    → position b'\n' a ≡ some i
    → (first_line (a ++ d) ≡ take (suc i) a) × (after_line (a ++ d) ≡ drop (suc i) a ++ d)
unfolding position first_line after_line
first_line-position [] d i h = cc
first_line-position (c ∷ cs) d i h = elim (Bool-cases (c == b'\n')) [
  | inl line ↦ let at_zero : i ≡ 0 = ground arith in rw (at_zero, line) (refl, refl)
  | inr more ↦
      let (j, found, e) = option_suc-some (position b'\n' cs) (rw more at h) in
      let (first, after) = first_line-position cs d j found in
      rw (e, more) (ap (◌∷◌ c) first, after)
]

-- With no newline the first line goes on.
pub first_line-no_position :
    (a d : Bytes)
    → position b'\n' a ≡ none
    → (first_line (a ++ d) ≡ a ++ first_line d) × (after_line (a ++ d) ≡ after_line d)
unfolding position first_line after_line
first_line-no_position [] d h = (refl, refl)
first_line-no_position (c ∷ cs) d h = elim (Bool-cases (c == b'\n')) [
  | inl line ↦ cc (rw line at h)
  | inr more ↦
      let (first, after) = first_line-no_position cs d (option_suc-none _ (rw more at h)) in
      rw more (ap (◌∷◌ c) first, after)
]
