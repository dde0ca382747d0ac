-- ===== src/Metrics/Space/Outstanding.antt =====
-- src/metrics/disk_space.rs: that a mount is never read by two threads.
use witness.Prelude.{
  ℕ, zero, suc, ◌≤◌, ◌≡◌, refl, sym, ◌∙◌, subst, ◌≢◌, inl, inr, true, false, Option, none, some,
  List, [], ◌∷◌, arith, Bool-cases, All,
}
use witness.Prelude.Str.{Bytes, eqb, eqb_iff, eqb_sym}
use witness.Assoc.{bytes_key}
use witness.Metrics.Space.{
  finishes, retains, reads, with_reader, in_front, Operation, operate_all, finish, operate,
  outstanding, thread_at, Thread, SpaceReader, store,
}
use witness.Metrics.Space.Flags.{Held, Unlike, Apart, IsSound}
use witness.Metrics.Space.Reading.{store_other, read-IsSound, retain_mounts-IsSound}

abbrev AllPicked : (Thread → Type 0) → Option (Thread × List Thread) → Type 0
AllPicked P none = Unit
AllPicked P (some (t, rest)) = P t × All P rest

abbrev ApartPicked : Option (Thread × List Thread) → Type 0
ApartPicked none = Unit
ApartPicked (some (t, rest)) = Unlike t rest × Apart rest

in_front-AllPicked :
    (P : Thread → Type 0) (t : Thread) (o : Option (Thread × List Thread))
    → P t
    → AllPicked P o
    → AllPicked P (in_front t o)
in_front-AllPicked P t none p h = tt
in_front-AllPicked P t (some (u, rest)) p h = (h.0, (p, h.1))

thread_at-AllPicked :
    (P : Thread → Type 0) (i : ℕ) (ts : List Thread) → All P ts → AllPicked P (thread_at i ts)
thread_at-AllPicked P i [] h = tt
thread_at-AllPicked P zero (t ∷ ts) h = h
thread_at-AllPicked P (suc i) (t ∷ ts) h =
    in_front-AllPicked P t (thread_at i ts) h.0 (thread_at-AllPicked P i ts h.1)

in_front-ApartPicked :
    (t : Thread) (o : Option (Thread × List Thread))
    → AllPicked (λ u. (eqb t.0 u.0 ≡ false) × (t.1 ≢ u.1)) o
    → ApartPicked o
    → ApartPicked (in_front t o)
in_front-ApartPicked t none unlike h = tt
in_front-ApartPicked t (some (u, rest)) unlike h =
    (((eqb_sym t.0 u.0 unlike.0.0, λ e. unlike.0.1 (sym e)), h.0), (unlike.1, h.1))

thread_at-ApartPicked : (i : ℕ) (ts : List Thread) → Apart ts → ApartPicked (thread_at i ts)
thread_at-ApartPicked i [] h = tt
thread_at-ApartPicked zero (t ∷ ts) h = h
thread_at-ApartPicked (suc i) (t ∷ ts) h =
    in_front-ApartPicked t (thread_at i ts)
      (thread_at-AllPicked (λ u. (eqb t.0 u.0 ≡ false) × (t.1 ≢ u.1)) i ts h.0)
      (thread_at-ApartPicked i ts h.1)

finished : SpaceReader → Option (Thread × List Thread) → SpaceReader
finished r o = elim o [
  | none ↦ r
  | some (t, rest) ↦ record r { flags = store t.1 false r.flags; threads = rest }
]

finished-IsSound :
    (r : SpaceReader) (o : Option (Thread × List Thread))
    → IsSound r
    → AllPicked (Held r) o
    → ApartPicked o
    → IsSound (finished r o)
unfolding finished
finished-IsSound r none sound held apart = sound
finished-IsSound r (some (t, rest)) (below, _, _) held apart =
    (below, others rest held.1 apart.0, apart.1)
  where
    others :
        (us : List Thread)
        → All (Held r) us
        → Unlike t us
        → All (Held (record r { flags = store t.1 false r.flags; threads = rest })) us
    others [] h u = tt
    others (v ∷ us) ((s, at, flag, is_set), hs) (u, us') = (
      (s, at, flag, store_other t.1 v.1 false r.flags (λ e. u.1 (sym e)) ∙ is_set),
      others us hs us',
    )

finish-IsSound : (i : ℕ) (r : SpaceReader) → IsSound r → IsSound (finish i r)
unfolding finish
finish-IsSound i r (below, held, apart) =
    unfold finished in
    finished-IsSound r (thread_at i r.threads) (below, held, apart)
      (thread_at-AllPicked (Held r) i r.threads held) (thread_at-ApartPicked i r.threads apart)

operate-IsSound :
    {Stats : Type 0} (o : Operation Stats) (r : SpaceReader) → IsSound r → IsSound (operate o r)
unfolding operate
operate-IsSound (reads mount answer) r sound = read-IsSound mount answer r sound
operate-IsSound (retains current) r sound = retain_mounts-IsSound current r sound
operate-IsSound (finishes i) r sound = finish-IsSound i r sound

operate_all-IsSound :
    {Stats : Type 0} (os : List (Operation Stats)) (r : SpaceReader)
    → IsSound r
    → IsSound (operate_all os r)
unfolding operate_all
operate_all-IsSound [] r sound = sound
operate_all-IsSound (o ∷ os) r sound =
    operate_all-IsSound os (operate o r) (operate-IsSound o r sound)

none_other :
    (mount : Bytes) (t : Thread) (ts : List Thread)
    → eqb t.0 mount ≡ true
    → Unlike t ts
    → outstanding mount ts ≡ 0
none_other mount t [] e u = refl
none_other mount t (v ∷ ts) e u =
    let same = (eqb_iff t.0 mount).0 e in
    let other = eqb_sym mount v.0 (subst (λ k. eqb k v.0 ≡ false) same u.0.0) in
    rw other (none_other mount t ts e u.1)

at_most_one : (mount : Bytes) (ts : List Thread) → Apart ts → outstanding mount ts ≤ 1
at_most_one mount [] h = omega arith
at_most_one mount (t ∷ ts) h = elim (Bool-cases (eqb t.0 mount)) [
  | inl here ↦ rw here (let none_left = none_other mount t ts here h.0 in omega (arith, none_left))
  | inr other ↦ rw other (at_most_one mount ts h.1)
]

-- Whatever the collector reads and forgets, whatever the file systems answer or do not, and whenever
-- threads end: at most one thread reads a mount at a time.
pub outstanding-operate_all :
    {Stats : Type 0} (os : List (Operation Stats)) (mount : Bytes)
    → outstanding mount (operate_all os with_reader).threads ≤ 1
outstanding-operate_all os mount =
    let (below, held, apart) = operate_all-IsSound os with_reader (tt, tt, tt) in
    at_most_one mount (operate_all os with_reader).threads apart
