-- ===== src/Metrics/Space/Flags.antt =====
-- src/metrics/disk_space.rs: the flags that mounts and threads share.
use mathlib.Core.Bool.{false≢true}
use witness.Prelude.{
  ℕ, ◌≤◌, ◌<◌, ◌≡◌, refl, sym, ◌∙◌, subst, ◌≢◌, inl, inr, Bool, true, false, ◌||◌, none, some, List,
  [], ◌∷◌, arith, if◌then◌else◌, Bool-cases, any, All, true_or,
}
use witness.Prelude.Str.{Bytes, eqb}
use witness.Assoc.{Assoc, bytes_key, lookup, insert, remove}
use witness.Metrics.Space.{MountState, Thread, SpaceReader, retain}

-- The mount of a thread is known, and the flag that they share is set.
abbrev pub Held : SpaceReader → Thread → Type 0
Held r t =
    (s : MountState) × (lookup t.0 r.mounts ≡ some s) × (s.in_flight ≡ t.1) × (r.flags t.1 ≡ true)

abbrev pub Unlike : Thread → List Thread → Type 0
Unlike t ts = All (λ u. (eqb t.0 u.0 ≡ false) × (t.1 ≢ u.1)) ts

abbrev pub Apart : List Thread → Type 0
Apart [] = Unit
Apart (t ∷ ts) = Unlike t ts × Apart ts

abbrev pub Below : ℕ → Bytes × MountState → Type 0
Below n e = e.1.in_flight < n

abbrev pub IsSound : SpaceReader → Type 0
IsSound r = All (Below r.next) r.mounts × All (Held r) r.threads × Apart r.threads

pub lookup-Below :
    (n : ℕ) (mount : Bytes) (s : MountState) (m : Assoc Bytes MountState)
    → All (Below n) m
    → lookup mount m ≡ some s
    → s.in_flight < n
unfolding lookup
lookup-Below n mount s [] h e = absurd (nothing e)
  where
    nothing : none ≡ some s → ⊥
    nothing e = cc
lookup-Below n mount s ((j, t) ∷ m) h e = by_key (lookup-Below n mount s m h.1) (eqb j mount) e
  where
    same_flag : some t ≡ some s → s.in_flight < n
    same_flag e = let eq : t ≡ s = cc in subst (λ x. x.in_flight < n) eq h.0

    by_key :
        (lookup mount m ≡ some s → s.in_flight < n)
        → (b : Bool) → (if b then some t else lookup mount m) ≡ some s
        → s.in_flight < n
    by_key later true e = same_flag e
    by_key later false e = later e

pub remove-All :
    (P : Bytes × MountState → Type 0) (mount : Bytes) (m : Assoc Bytes MountState)
    → All P m
    → All P (remove mount m)
unfolding remove
remove-All P mount [] h = tt
remove-All P mount ((j, t) ∷ m) h = elim (Bool-cases (eqb j mount)) [
  | inl y ↦ rw y (remove-All P mount m h.1)
  | inr n ↦ rw n (h.0, remove-All P mount m h.1)
]

pub insert-All :
    (P : Bytes × MountState → Type 0) (mount : Bytes) (s : MountState) (m : Assoc Bytes MountState)
    → P (mount, s)
    → All P m
    → All P (insert mount s m)
unfolding insert
insert-All P mount s m p h = (p, remove-All P mount m h)

pub Below-later : (n k : ℕ) (m : Assoc Bytes MountState) → n ≤ k → All (Below n) m → All (Below k) m
Below-later n k [] le h = tt
Below-later n k (e ∷ m) le h = (omega (arith, le, h.0), Below-later n k m le h.1)

pub retain-All :
    (P : Bytes × MountState → Type 0) (current : List Bytes) (flags : ℕ → Bool)
    (m : Assoc Bytes MountState)
    → All P m
    → All P (retain current flags m)
unfolding retain
retain-All P current flags [] h = tt
retain-All P current flags ((mount, s) ∷ m) h =
    elim (Bool-cases (any (λ c. eqb c mount) current || flags s.in_flight)) [
      | inl y ↦ rw y (h.0, retain-All P current flags m h.1)
      | inr n ↦ rw n (retain-All P current flags m h.1)
    ]

-- Threads stay held by a reader that keeps their entries and their flags.
pub Held-kept :
    (r r' : SpaceReader) (ts : List Thread)
    → All (Held r) ts
    → ((t : Thread) → Held r t → Held r' t)
    → All (Held r') ts
Held-kept r r' [] h k = tt
Held-kept r r' (t ∷ ts) h k = (k t h.0, Held-kept r r' ts h.1 k)

pub lookup-retain :
    (current : List Bytes) (flags : ℕ → Bool) (mount : Bytes) (s : MountState)
    (m : Assoc Bytes MountState)
    → flags s.in_flight ≡ true
    → lookup mount m ≡ some s
    → lookup mount (retain current flags m) ≡ some s
unfolding retain lookup
lookup-retain current flags mount s [] f e = e
lookup-retain current flags mount s ((j, t) ∷ m) f e =
    by_cases (lookup-retain current flags mount s m f)
      (any (λ c. eqb c j) current || flags t.in_flight) refl (eqb j mount) refl e
  where
    in_flight : some t ≡ some s → (any (λ c. eqb c j) current || flags t.in_flight) ≡ true
    in_flight e =
        let same : s ≡ t = cc in
        true_or (any (λ c. eqb c j) current) (flags t.in_flight)
          (subst (λ x. flags x.in_flight ≡ true) same f)

    by_cases :
        (lookup mount m ≡ some s → lookup mount (retain current flags m) ≡ some s)
        → (kept : Bool) → (any (λ c. eqb c j) current || flags t.in_flight) ≡ kept
        → (here : Bool) → eqb j mount ≡ here
        → (if here then some t else lookup mount m) ≡ some s
        → lookup mount (if kept then (j, t) ∷ retain current flags m else retain current flags m)
          ≡ some s
    by_cases later true y true z e = rw z e
    by_cases later true y false z e = rw z (later e)
    by_cases later false n true z e = absurd (false≢true (sym n ∙ in_flight e))
    by_cases later false n false z e = later e
