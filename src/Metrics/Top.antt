-- ===== src/Metrics/Top.antt =====
-- src/metrics/linux/process.rs: the largest of a list, as `sort_unstable_by`, `take` and `break` pick
-- them. Which of two equals comes first is not promised by the sort; here it is the earlier one.
use witness.Prelude.{
  ℕ, zero, suc, ◌≤◌, ◌<◌, ◌≡◌, refl, ap, subst, ◌⊎◌, inl, inr, List, [], ◌∷◌, ◌++◌, arith, leb,
  ◌==◌, if◌then◌else◌, leb→le, ==_iff, Bool-cases, length, take, All,
}
use mathlib.Core.List.{Perm}
use mathlib.Core.List.Perm

module _ {ℓ} {A : Type ℓ} (key : A → ℕ) where
  unfoldable pub place : A → List A → List A
  place x [] = x ∷ []
  place x (y ∷ ys) = if leb (key y) (key x) then x ∷ y ∷ ys else y ∷ place x ys

  -- Largest first.
  unfoldable pub sort_descending : List A → List A
  unfolding place
  sort_descending [] = []
  sort_descending (x ∷ xs) = place x (sort_descending xs)

  -- The loop over the first ones, which breaks at a zero.
  unfoldable pub until_zero : List A → List A
  until_zero [] = []
  until_zero (x ∷ xs) = if key x == 0 then [] else x ∷ until_zero xs

  unfoldable pub top : ℕ → List A → List A
  unfolding sort_descending until_zero
  top n xs = until_zero (take n (sort_descending xs))

  abbrev pub AtMost : A → A → Type 0
  AtMost x y = key y ≤ key x

  abbrev pub Descending : List A → Type 0
  Descending [] = Unit
  Descending (x ∷ xs) = All (AtMost x) xs × Descending xs

  -- The others: either there are `n` of these, or the others are zero.
  abbrev pub IsTop : ℕ → List A → List A → Type ℓ
  IsTop n items out =
      (others : List A) × Perm items (out ++ others)
      × Descending out
      × All (λ x. 0 < key x) out
      × All (λ x. All (AtMost x) others) out
      × (length out ≤ n)
      × ((length out ≡ n) ⊎ All (λ y. key y ≡ 0) others)

  place-perm : (x : A) (ys : List A) → Perm (x ∷ ys) (place x ys)
  unfolding place
  place-perm x [] = Perm.refl (x ∷ [])
  place-perm x (y ∷ ys) = elim (Bool-cases (leb (key y) (key x))) [
    | inl here ↦ rw here (Perm.refl (x ∷ y ∷ ys))
    | inr later ↦ rw later (Perm.trans (Perm.swap y x ys) (Perm.cons y (place-perm x ys)))
  ]

  pub sort_descending-perm : (xs : List A) → Perm xs (sort_descending xs)
  unfolding sort_descending
  sort_descending-perm [] = Perm.refl []
  sort_descending-perm (x ∷ xs) =
      Perm.trans (Perm.cons x (sort_descending-perm xs)) (place-perm x (sort_descending xs))

  All-AtMost : (x y : A) (zs : List A) → key y ≤ key x → All (AtMost y) zs → All (AtMost x) zs
  All-AtMost x y [] h a = tt
  All-AtMost x y (z ∷ zs) h a = (omega (arith, h, a.0), All-AtMost x y zs h a.1)

  place-AtMost :
      (w x : A) (ys : List A) → key x ≤ key w → All (AtMost w) ys → All (AtMost w) (place x ys)
  unfolding place
  place-AtMost w x [] h a = (h, tt)
  place-AtMost w x (y ∷ ys) h a = elim (Bool-cases (leb (key y) (key x))) [
    | inl here ↦ rw here (h, a)
    | inr later ↦ rw later (a.0, place-AtMost w x ys h a.1)
  ]

  place-Descending : (x : A) (ys : List A) → Descending ys → Descending (place x ys)
  unfolding place
  place-Descending x [] d = (tt, tt)
  place-Descending x (y ∷ ys) d = elim (Bool-cases (leb (key y) (key x))) [
    | inl here ↦ let h = leb→le (key y) (key x) here in rw here ((h, All-AtMost x y ys h d.0), d)
    | inr later ↦
        rw later (place-AtMost y x ys (ground (arith, later)) d.0, place-Descending x ys d.1)
  ]

  sort_descending-Descending : (xs : List A) → Descending (sort_descending xs)
  unfolding sort_descending
  sort_descending-Descending [] = tt
  sort_descending-Descending (x ∷ xs) =
      place-Descending x (sort_descending xs) (sort_descending-Descending xs)

  -- What the loop leaves.
  others_of : ℕ → List A → List A
  others_of zero xs = xs
  others_of (suc n) [] = []
  others_of (suc n) (x ∷ xs) = if key x == 0 then x ∷ xs else others_of n xs

  picked : ℕ → List A → List A
  unfolding until_zero
  picked n xs = until_zero (take n xs)

  picked-others : (n : ℕ) (xs : List A) → xs ≡ picked n xs ++ others_of n xs
  unfolding picked others_of until_zero
  picked-others zero xs = refl
  picked-others (suc n) [] = refl
  picked-others (suc n) (x ∷ xs) = elim (Bool-cases (key x == 0)) [
    | inl z ↦ rw z refl
    | inr p ↦ rw p (ap (◌∷◌ x) (picked-others n xs))
  ]

  All-others : (P : A → Type 0) (n : ℕ) (xs : List A) → All P xs → All P (others_of n xs)
  unfolding others_of
  All-others P zero xs a = a
  All-others P (suc n) [] a = tt
  All-others P (suc n) (x ∷ xs) a = elim (Bool-cases (key x == 0)) [
    | inl z ↦ rw z a
    | inr p ↦ rw p (All-others P n xs a.1)
  ]

  All-picked : (P : A → Type 0) (n : ℕ) (xs : List A) → All P xs → All P (picked n xs)
  unfolding picked until_zero
  All-picked P zero xs a = tt
  All-picked P (suc n) [] a = tt
  All-picked P (suc n) (x ∷ xs) a = elim (Bool-cases (key x == 0)) [
    | inl z ↦ rw z tt
    | inr p ↦ rw p (a.0, All-picked P n xs a.1)
  ]

  zeros : (x : A) (xs : List A) → key x ≡ 0 → All (AtMost x) xs → All (λ y. key y ≡ 0) xs
  zeros x [] z a = tt
  zeros x (y ∷ ys) z a = (omega (arith, z, a.0), zeros x ys z a.1)

  picked-IsTop :
      (n : ℕ) (xs : List A)
      → Descending xs
      → Descending (picked n xs)
        × All (λ x. 0 < key x) (picked n xs)
        × All (λ x. All (AtMost x) (others_of n xs)) (picked n xs)
        × (length (picked n xs) ≤ n)
        × ((length (picked n xs) ≡ n) ⊎ All (λ y. key y ≡ 0) (others_of n xs))
  unfolding picked others_of until_zero
  picked-IsTop zero xs d = (tt, tt, tt, omega arith, inl refl)
  picked-IsTop (suc n) [] d = (tt, tt, tt, omega arith, inr tt)
  picked-IsTop (suc n) (x ∷ xs) d = elim (Bool-cases (key x == 0)) [
    | inl z ↦
        let zero_key = (==_iff (key x) 0).0 z in
        rw z (tt, tt, tt, omega arith, inr (zero_key, zeros x xs zero_key d.0))
    | inr p ↦
        let (a, b, c, short, e) = picked-IsTop n xs d.1 in
        rw p (
          (All-picked (AtMost x) n xs d.0, a),
          (ground (arith, p), b),
          (All-others (AtMost x) n xs d.0, c),
          omega (arith, short),
          (elim e [ inl full ↦ inl (ap suc full) | inr none_left ↦ inr none_left ]),
        )
  ]

  -- What is picked are the largest: in descending order, none of them zero, at most `n`, and none of
  -- the others is larger than one of them; there are fewer than `n` only if the others are zero.
  pub top-IsTop : (n : ℕ) (items : List A) → IsTop n items (top n items)
  unfolding top picked
  top-IsTop n items =
      let sorted = sort_descending items in
      let (a, b, c, short, e) = picked-IsTop n sorted (sort_descending-Descending items) in
      (
        others_of n sorted,
        subst (Perm items) (picked-others n sorted) (sort_descending-perm items),
        a,
        b,
        c,
        short,
        e,
      )
