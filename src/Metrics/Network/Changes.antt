-- ===== src/Metrics/Network/Changes.antt =====
-- src/metrics/linux/network.rs: the samples of one interface among the others.
use witness.Prelude.{
  ◌≡◌, refl, sym, ap, ap₂, ◌∙◌, subst, inl, inr, Bool, false, Option, none, some, List, [], ◌∷◌,
  ◌++◌, append-nil, if◌then◌else◌, Bool-cases, Option-cases,
}
use witness.Prelude.Str.{Bytes, eqb, eqb_iff, eqb_refl}
use witness.Assoc.{Assoc, bytes_key, lookup, insert, lookup-insert}
use witness.Metrics.{Floats, Metric}
use witness.Metrics.Filter.{Globs, DeviceFilter}
use witness.Metrics.Network.{NetStats, net_deltas, net_sample, net_line, net_lines}

module _ (globs : Globs) (floats : Floats) where
  open floats use {F64}

  -- The first label's value is the name of the interface.
  abbrev is_of : Bytes → Metric F64 → Bool
  is_of i m = elim m.labels [ [] ↦ false | l ∷ _ ↦ eqb l.1 i ]

  abbrev pub only : Bytes → List (Metric F64) → List (Metric F64)
  only i [] = []
  only i (m ∷ ms) = let rest = only i ms in if is_of i m then m ∷ rest else rest

  -- The samples of the interface among the lines, in order.
  abbrev with_sample : Bytes → Option (Bytes × NetStats) → List NetStats → List NetStats
  with_sample i none ss = ss
  with_sample i (some (j, s)) ss = if eqb j i then s ∷ ss else ss

  abbrev pub samples_of : DeviceFilter globs → Bytes → List Bytes → List NetStats
  samples_of filter i [] = []
  samples_of filter i (l ∷ ls) =
      with_sample i (net_sample globs floats filter l) (samples_of filter i ls)

  -- The differences of each sample and the one before.
  abbrev pub changes : Bytes → Option NetStats → List NetStats → List (Metric F64)
  changes i before [] = []
  changes i none (s ∷ ss) = changes i (some s) ss
  changes i (some p) (s ∷ ss) = net_deltas globs floats i p s ++ changes i (some s) ss

  abbrev pub last_of : Option NetStats → List NetStats → Option NetStats
  last_of before [] = before
  last_of before (s ∷ ss) = last_of (some s) ss

  only-append : (i : Bytes) (xs ys : List (Metric F64)) → only i (xs ++ ys) ≡ only i xs ++ only i ys
  only-append i [] ys = refl
  only-append i (m ∷ xs) ys = elim (Bool-cases (is_of i m)) [
    | inl e ↦ rw e (ap (◌∷◌ m) (only-append i xs ys))
    | inr e ↦ rw e (only-append i xs ys)
  ]

  only-same :
      (i : Bytes) (p c : NetStats)
      → only i (net_deltas globs floats i p c) ≡ net_deltas globs floats i p c
  unfolding net_deltas
  only-same i p c = rw (eqb_refl i)

  only-other :
      (i j : Bytes) (p c : NetStats) → eqb j i ≡ false → only i (net_deltas globs floats j p c) ≡ []
  unfolding net_deltas
  only-other i j p c h = rw h

  -- One line: what is sent of the interface, and what is stored of it.
  abbrev Stepped :
      Bytes
      → Option NetStats
      → Option (Bytes × NetStats)
      → List (Metric F64) × Assoc Bytes NetStats
      → Type 0
  Stepped i before o (sent, prev) =
      (only i sent ≡ changes i before (with_sample i o []))
      × (lookup i prev ≡ last_of before (with_sample i o []))

  new_same :
      (i : Bytes) (s : NetStats) (prev : Assoc Bytes NetStats)
      → lookup i prev ≡ none
      → Stepped i (lookup i prev) (some (i, s)) ([], insert i s prev)
  new_same i s prev h = rw (h, eqb_refl i) (refl, lookup-insert i i s prev ∙ rw (eqb_refl i))

  old_same :
      (i : Bytes) (p s : NetStats) (prev : Assoc Bytes NetStats)
      → lookup i prev ≡ some p
      → Stepped i (lookup i prev) (some (i, s)) (net_deltas globs floats i p s, insert i s prev)
  old_same i p s prev h =
      rw (h, eqb_refl i)
        (
          only-same i p s ∙ sym (append-nil (net_deltas globs floats i p s)),
          lookup-insert i i s prev ∙ rw (eqb_refl i),
        )

  another :
      (i j : Bytes) (s : NetStats) (prev : Assoc Bytes NetStats) (sent : List (Metric F64))
      → eqb j i ≡ false
      → only i sent ≡ []
      → Stepped i (lookup i prev) (some (j, s)) (sent, insert j s prev)
  another i j s prev sent h quiet = rw h (quiet, lookup-insert j i s prev ∙ rw h)

  net_line_lem :
      (filter : DeviceFilter globs) (i line : Bytes) (prev : Assoc Bytes NetStats)
      → Stepped i
          (lookup i prev)
          (net_sample globs floats filter line)
          (net_line globs floats filter line prev)
  unfolding net_line
  net_line_lem filter i line prev = elim (Option-cases (net_sample globs floats filter line)) [
    | inl e ↦ rw (e, net_line) (refl, refl)
    | inr ((j, s), e) ↦ elim (Option-cases (lookup j prev)) [
      | inl o ↦ rw (e, o, net_line) (fresh j s o)
      | inr (p, o) ↦ rw (e, o, net_line) (known j s p o)
    ]
  ]
    where
      fresh :
          (j : Bytes) (s : NetStats)
          → lookup j prev ≡ none
          → Stepped i (lookup i prev) (some (j, s)) ([], insert j s prev)
      fresh j s o = elim (Bool-cases (eqb j i)) [
        | inr h ↦ another i j s prev [] h refl
        | inl h ↦
            subst (λ k. Stepped k (lookup k prev) (some (j, s)) ([], insert j s prev))
              ((eqb_iff j i).0 h) (new_same j s prev o)
      ]

      known :
          (j : Bytes) (s p : NetStats)
          → lookup j prev ≡ some p
          → Stepped i (lookup i prev) (some (j, s)) (net_deltas globs floats j p s, insert j s prev)
      known j s p o = elim (Bool-cases (eqb j i)) [
        | inr h ↦ another i j s prev (net_deltas globs floats j p s) h (only-other i j p s h)
        | inl h ↦
            subst
              (λ k.
                Stepped k (lookup k prev) (some (j, s))
                  (net_deltas globs floats j p s, insert j s prev))
              ((eqb_iff j i).0 h) (old_same j p s prev o)
      ]

  -- Two runs of samples, one behind the other.
  changes-with :
      (i : Bytes) (before : Option NetStats) (o : Option (Bytes × NetStats)) (ss : List NetStats)
      → changes i before (with_sample i o ss)
        ≡ changes i before (with_sample i o [])
          ++ changes i (last_of before (with_sample i o [])) ss
  changes-with i before none ss = refl
  changes-with i before (some (j, s)) ss = elim (Bool-cases (eqb j i)) [
    | inr h ↦ rw h
    | inl h ↦ rw h (one before)
  ]
    where
      one :
          (b : Option NetStats)
          → changes i b (s ∷ ss) ≡ changes i b (s ∷ []) ++ changes i (some s) ss
      one none = refl
      one (some p) = rw append-nil

  last_of-with :
      (i : Bytes) (before : Option NetStats) (o : Option (Bytes × NetStats)) (ss : List NetStats)
      → last_of before (with_sample i o ss) ≡ last_of (last_of before (with_sample i o [])) ss
  last_of-with i before none ss = refl
  last_of-with i before (some (j, s)) ss = elim (Bool-cases (eqb j i)) [
    | inr h ↦ rw h
    | inl h ↦ rw h
  ]

  -- Of each interface, a table sends the differences of its consecutive samples, beginning with the
  -- one that was stored, in the order of the lines and nothing before there is a baseline; and its last
  -- sample is stored.
  pub net_lines_lem :
      (filter : DeviceFilter globs) (i : Bytes) (ls : List Bytes) (prev : Assoc Bytes NetStats)
      → (let o = net_lines globs floats filter ls prev in
          (only i o.0 ≡ changes i (lookup i prev) (samples_of filter i ls))
          × (lookup i o.1 ≡ last_of (lookup i prev) (samples_of filter i ls)))
  unfolding net_lines
  net_lines_lem filter i [] prev = (refl, refl)
  net_lines_lem filter i (l ∷ ls) prev =
      let (sent, stored) = net_line_lem filter i l prev in
      let o = net_sample globs floats filter l in
      let step = net_line globs floats filter l prev in
      let (later, last) = net_lines_lem filter i ls step.1 in
      (
        only-append i step.0 _
            ∙ ap₂ ◌++◌ sent (later ∙ ap (λ b. changes i b (samples_of filter i ls)) stored)
            ∙ sym (changes-with i (lookup i prev) o (samples_of filter i ls)),
        last
            ∙ ap (λ b. last_of b (samples_of filter i ls)) stored
            ∙ sym (last_of-with i (lookup i prev) o (samples_of filter i ls)),
      )
