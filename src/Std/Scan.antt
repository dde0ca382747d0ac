-- ===== src/Std/Scan.antt =====
-- Scanning a text from a position: the position is the text that is left.
use witness.Prelude.{
  ℕ, suc, ◌+◌, ◌≤◌, ◌≡◌, refl, sym, ap, ◌∙◌, inl, inr, Bool, true, false, Option, none, some, [],
  ◌∷◌, ◌++◌, arith, ◌==◌, if◌then◌else◌, Bool-cases, length, all, is_empty, length-append,
}
use witness.Prelude.Str.{Bytes, starts_with}

-- The longest run of bytes that pass, and what stands behind it.
unfoldable pub span : (ℕ → Bool) → Bytes → Bytes × Bytes
span p [] = ([], [])
span p (c ∷ cs) = if p c then (c ∷ (span p cs).0, (span p cs).1) else ([], c ∷ cs)

unfoldable pub skip_while : (ℕ → Bool) → Bytes → Bytes
skip_while p [] = []
skip_while p (c ∷ cs) = if p c then skip_while p cs else c ∷ cs

-- `str::find` of a text: the offset of its first occurrence.
unfoldable pub find : Bytes → Bytes → Option ℕ
find pat [] = if is_empty pat then some 0 else none
find pat (c ∷ cs) =
    let later = find pat cs in
    if starts_with pat (c ∷ cs) then some 0 else elim later [ none ↦ none | some i ↦ some (suc i) ]

-- `str::rfind` of an ASCII character: the offset of its last occurrence.
unfoldable pub rfind : ℕ → Bytes → Option ℕ
rfind c [] = none
rfind c (x ∷ xs) = elim (rfind c xs) [
  | some i ↦ some (suc i)
  | none ↦ if x == c then some 0 else none
]

pub span-append : (p : ℕ → Bool) (s : Bytes) → (span p s).0 ++ (span p s).1 ≡ s
unfolding span
span-append p [] = refl
span-append p (c ∷ cs) = elim (Bool-cases (p c)) [
  | inl e ↦ rw e (ap (◌∷◌ c) (span-append p cs))
  | inr e ↦ rw e
]

pub span-all : (p : ℕ → Bool) (s : Bytes) → all p (span p s).0 ≡ true
unfolding span
span-all p [] = refl
span-all p (c ∷ cs) = elim (Bool-cases (p c)) [ inl e ↦ rw (e, e, span-all p cs) | inr e ↦ rw e ]

-- A run, and a byte behind it that does not belong to it.
abbrev pub Stops : (ℕ → Bool) → Bytes → Type 0
Stops p [] = Unit
Stops p (c ∷ cs) = p c ≡ false

pub span-Stops : (p : ℕ → Bool) (s : Bytes) → Stops p (span p s).1
unfolding span
span-Stops p [] = tt
span-Stops p (c ∷ cs) = elim (Bool-cases (p c)) [ inl e ↦ rw e (span-Stops p cs) | inr e ↦ rw e e ]

pub span_exact :
    (p : ℕ → Bool) (s rest : Bytes) → all p s ≡ true → Stops p rest → span p (s ++ rest) ≡ (s, rest)
unfolding span
span_exact p [] [] h stop = refl
span_exact p [] (c ∷ cs) h stop = rw stop
span_exact p (c ∷ cs) rest h stop = elim (Bool-cases (p c)) [
  | inl e ↦ rw (e, span_exact p cs rest (rw e at h) stop)
  | inr e ↦ cc (rw e at h)
]

pub length-skip_while : (p : ℕ → Bool) (s : Bytes) → length (skip_while p s) ≤ length s
unfolding skip_while
length-skip_while p [] = omega arith
length-skip_while p (c ∷ cs) = ground (arith, length-skip_while p cs)

pub length-span : (p : ℕ → Bool) (s : Bytes) → length (span p s).0 + length (span p s).1 ≡ length s
length-span p s = sym (length-append (span p s).0 (span p s).1) ∙ ap length (span-append p s)
