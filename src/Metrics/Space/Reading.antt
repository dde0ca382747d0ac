-- ===== src/Metrics/Space/Reading.antt =====
-- src/metrics/disk_space.rs: what `read` and `retain_mounts` do to the flags.
use mathlib.Core.Bool.{false≢true}
use witness.Prelude.{
  ℕ, ◌+◌, ◌≡◌, refl, sym, ap, ◌∙◌, subst, ◌≢◌, inl, inr, Bool, true, false, Option, none, some,
  List, [], ◌∷◌, arith, ◌==◌, ==_iff, Bool-cases, Option-cases, All,
}
use witness.Prelude.Str.{Bytes, eqb, eqb_iff, eqb_refl}
use witness.Assoc.{lookup-insert, Assoc, bytes_key, lookup, insert, lookup-insert_other}
use witness.Metrics.Space.{
  spawns, warned_after, Answer, spawn_read, read_entered, set_warned, retain_mounts, read,
  MountState, Thread, SpaceReader, store, enter,
}
use witness.Metrics.Space.Flags.{
  Held, Unlike, Below, IsSound, lookup-Below, insert-All, Below-later, retain-All, Held-kept,
  lookup-retain,
}

pub entered : Bytes → SpaceReader → SpaceReader
entered mount r = record r {
  mounts = insert mount (record { in_flight = r.next; warned = false }) r.mounts;
  flags = store r.next false r.flags;
  next = r.next + 1;
}

pub enter_known :
    (mount : Bytes) (r : SpaceReader) (s : MountState)
    → lookup mount r.mounts ≡ some s
    → enter mount r ≡ r
unfolding enter
enter_known mount r s e = rw (e, enter) refl

pub enter_new :
    (mount : Bytes) (r : SpaceReader)
    → lookup mount r.mounts ≡ none
    → enter mount r ≡ entered mount r
unfolding enter entered
enter_new mount r e = rw (e, enter) refl

pub neq_flag : (f g : ℕ) → f ≢ g → (f == g) ≡ false
neq_flag f g h = ground (arith, h)

pub store_other : (f g : ℕ) (b : Bool) (flags : ℕ → Bool) → g ≢ f → store f b flags g ≡ flags g
store_other f g b flags h = rw (neq_flag g f h) refl

pub store_same : (f : ℕ) (b : Bool) (flags : ℕ → Bool) → store f b flags f ≡ b
store_same f b flags = rw ((==_iff f f).1 refl) refl

-- A mount whose entry differs from the one that is looked for is another mount.
pub other_mount :
    (m : Assoc Bytes MountState) (a b : Bytes) (s : MountState)
    → lookup a m ≡ none
    → lookup b m ≡ some s
    → eqb a b ≡ false
other_mount m a b s e f = by (eqb a b) refl
  where
    clash : none ≡ some s → ⊥
    clash e = cc

    by : (c : Bool) → eqb a b ≡ c → c ≡ false
    by false h = refl
    by true h =
        let same = (eqb_iff a b).0 h in absurd (clash (sym e ∙ ap (λ k. lookup k m) same ∙ f))

pub entered-IsSound :
    (mount : Bytes) (r : SpaceReader)
    → lookup mount r.mounts ≡ none
    → IsSound r
    → IsSound (entered mount r)
unfolding entered
entered-IsSound mount r new (below, held, apart) = (
  insert-All (Below (r.next + 1)) mount (record { in_flight = r.next; warned = false }) r.mounts
      (omega arith) (Below-later r.next (r.next + 1) r.mounts (omega arith) below),
  Held-kept r (entered mount r) r.threads held keeps,
  apart,
)
  where
    keeps : (t : Thread) → Held r t → Held (entered mount r) t
    keeps t (s, at, flag, is_set) =
        let old = lookup-Below r.next t.0 s r.mounts below at in
        (
          s,
          lookup-insert_other mount t.0 (record { in_flight = r.next; warned = false }) r.mounts
                (other_mount r.mounts mount t.0 s new at)
              ∙ at,
          flag,
          store_other r.next t.1 false r.flags (λ e. absurd (omega (arith, e, flag, old))) ∙ is_set,
        )

pub enter-IsSound : (mount : Bytes) (r : SpaceReader) → IsSound r → IsSound (enter mount r)
enter-IsSound mount r sound = elim (Option-cases (lookup mount r.mounts)) [
  | inl new ↦ subst IsSound (sym (enter_new mount r new)) (entered-IsSound mount r new sound)
  | inr (s, known) ↦ subst IsSound (sym (enter_known mount r s known)) sound
]

-- No thread reads a mount whose flag is not set.
pub idle_mount :
    (r : SpaceReader) (mount : Bytes) (s : MountState) (t : Thread)
    → lookup mount r.mounts ≡ some s
    → r.flags s.in_flight ≡ false
    → Held r t
    → (eqb mount t.0 ≡ false) × (s.in_flight ≢ t.1)
idle_mount r mount s t at idle (u, at', flag, is_set) =
    (other (eqb mount t.0) refl, λ e. clash (ap r.flags e))
  where
    clash : r.flags s.in_flight ≡ r.flags t.1 → ⊥
    clash e = false≢true (sym idle ∙ e ∙ is_set)

    same_entry : some s ≡ some u → s ≡ u
    same_entry e = cc

    other : (b : Bool) → eqb mount t.0 ≡ b → b ≡ false
    other false h = refl
    other true h =
        let same = (eqb_iff mount t.0).0 h in
        let entry = same_entry (sym at ∙ ap (λ k. lookup k r.mounts) same ∙ at') in
        absurd (clash (ap r.flags (ap (λ x. x.in_flight) entry ∙ flag)))

module _ (r : SpaceReader) (mount : Bytes) (s : MountState) (at : lookup mount r.mounts ≡ some s)
    (idle : r.flags s.in_flight ≡ false) (w : Bool) where
  pub reading : Bool → SpaceReader
  reading b = set_warned mount s w (spawn_read mount s b r)

  pub reading-keeps : (b : Bool) (t : Thread) → Held r t → Held (reading b) t
  unfolding reading set_warned spawn_read
  reading-keeps b t h =
      let (other, flag_differs) = idle_mount r mount s t at idle h in
      let (u, at', flag, is_set) = h in
      (
        u,
        lookup-insert_other mount t.0 (record s { warned = w }) r.mounts other ∙ at',
        flag,
        store_other s.in_flight t.1 b r.flags (λ e. flag_differs (sym e)) ∙ is_set,
      )

  pub reading-Unlike : (ts : List Thread) → All (Held r) ts → Unlike (mount, s.in_flight) ts
  reading-Unlike [] h = tt
  reading-Unlike (t ∷ ts) h = (idle_mount r mount s t at idle h.0, reading-Unlike ts h.1)

  pub reading-Below :
      (b : Bool) → All (Below r.next) r.mounts → All (Below r.next) (reading b).mounts
  unfolding reading set_warned spawn_read
  reading-Below b h =
      insert-All (Below r.next) mount (record s { warned = w }) r.mounts
        (lookup-Below r.next mount s r.mounts h at) h

  pub reading-IsSound : (b : Bool) → IsSound r → IsSound (reading b)
  unfolding reading set_warned spawn_read
  reading-IsSound false (below, held, apart) = (
    reading-Below false below,
    Held-kept r (reading false) r.threads held (reading-keeps false),
    apart,
  )
  reading-IsSound true (below, held, apart) = (
    reading-Below true below,
    (
      (
        record s { warned = w },
        lookup-insert mount mount (record s { warned = w }) r.mounts ∙ rw (eqb_refl mount) refl,
        refl,
        store_same s.in_flight true r.flags,
      ),
      Held-kept r (reading true) r.threads held (reading-keeps true),
    ),
    (reading-Unlike r.threads held, apart),
  )

pub read_entered-IsSound :
    {Stats : Type 0} (mount : Bytes) (answer : Answer Stats) (o : Option MountState)
    (r : SpaceReader)
    → lookup mount r.mounts ≡ o
    → IsSound r
    → IsSound (read_entered mount answer o r).1
unfolding read_entered
read_entered-IsSound mount answer none r at sound = sound
read_entered-IsSound mount answer (some s) r at sound = elim (Bool-cases (r.flags s.in_flight)) [
  | inl busy ↦ rw busy sound
  | inr idle ↦ rw idle (
      unfold reading in
      reading-IsSound r mount s at idle (warned_after answer s.warned) (spawns answer) sound)
]

pub read-IsSound :
    {Stats : Type 0} (mount : Bytes) (answer : Answer Stats) (r : SpaceReader)
    → IsSound r
    → IsSound (read mount answer r).1
unfolding read
read-IsSound mount answer r sound =
    read_entered-IsSound mount answer (lookup mount (enter mount r).mounts) (enter mount r) refl
      (enter-IsSound mount r sound)

pub retain_mounts-IsSound :
    (current : List Bytes) (r : SpaceReader) → IsSound r → IsSound (retain_mounts current r)
unfolding retain_mounts
retain_mounts-IsSound current r (below, held, apart) = (
  retain-All (Below r.next) current r.flags r.mounts below,
  Held-kept r (retain_mounts current r) r.threads held keeps,
  apart,
)
  where
    keeps : (t : Thread) → Held r t → Held (retain_mounts current r) t
    keeps t (s, at, flag, is_set) = (
      s,
      lookup-retain current r.flags t.0 s r.mounts (ap r.flags flag ∙ is_set) at,
      flag,
      is_set,
    )
