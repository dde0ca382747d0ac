-- ===== src/Metrics/Space.antt =====
-- src/metrics/disk_space.rs: `SpaceReader`, which reads each mount on a thread and waits for it for a
-- limited time. What happens is a list of operations: the collector's calls, and the ends of threads.
pub mod Flags
pub mod Reading
pub mod Outstanding
use witness.Prelude.{
  ℕ, zero, suc, ◌+◌, Bool, true, false, not, ◌||◌, Option, none, some, List, [], ◌∷◌, ◌==◌,
  if◌then◌else◌, any,
}
use witness.Prelude.Str.{Bytes, eqb}
use witness.Assoc.{Assoc, bytes_key, lookup, insert}

-- `in_flight` is the address of the flag that the entry shares with the thread (`Arc<AtomicBool>`).
pub record MountState : Type 0 where
  pub in_flight : ℕ
  pub warned : Bool

-- A thread whose guard has not been dropped: the mount it reads, and its flag.
abbrev pub Thread : Type 0
Thread = Bytes × ℕ

-- `flags` is the store of the flags, and `next` the first address that is free.
pub record SpaceReader : Type 0 where
  pub mounts : Assoc Bytes MountState
  pub flags : ℕ → Bool
  pub next : ℕ
  pub threads : List Thread

abbrev pub store : ℕ → Bool → (ℕ → Bool) → ℕ → Bool
store f b flags g = if g == f then b else flags g

-- What `spawn_read` comes to: the thread cannot be made, it gives no answer in time, it panics, or it
-- answers with what `statvfs` said.
pub data Answer (Stats : Type 0) : Type 0 where
  not_spawned timed_out panicked : Answer Stats
  answered : Option Stats → Answer Stats

abbrev pub spawns : {Stats : Type 0} → Answer Stats → Bool
spawns not_spawned = false
spawns timed_out = true
spawns panicked = true
spawns (answered s) = true

abbrev pub warned_after : {Stats : Type 0} → Answer Stats → Bool → Bool
warned_after not_spawned w = w
warned_after timed_out w = true
warned_after panicked w = w
warned_after (answered s) w = false

abbrev pub stats_of : {Stats : Type 0} → Answer Stats → Option Stats
stats_of not_spawned = none
stats_of timed_out = none
stats_of panicked = none
stats_of (answered s) = s

abbrev pub with_reader : SpaceReader
with_reader = record { mounts = []; flags = λ f. false; next = 0; threads = [] }

-- The entry of a mount, with a flag of its own that is not set.
unfoldable pub enter : Bytes → SpaceReader → SpaceReader
unfolding lookup insert
enter mount r = elim (lookup mount r.mounts) [
  | some s ↦ r
  | none ↦ record r {
    mounts = insert mount (record { in_flight = r.next; warned = false }) r.mounts;
    flags = store r.next false r.flags;
    next = r.next + 1;
  }
]

-- The flag is set, and the guard goes to the thread, or is dropped with it.
unfoldable pub spawn_read : Bytes → MountState → Bool → SpaceReader → SpaceReader
spawn_read mount s spawned r = record r {
  flags = store s.in_flight spawned r.flags;
  threads = if spawned then (mount, s.in_flight) ∷ r.threads else r.threads;
}

unfoldable pub set_warned : Bytes → MountState → Bool → SpaceReader → SpaceReader
unfolding insert
set_warned mount s w r = record r { mounts = insert mount (record s { warned = w }) r.mounts }

module _ {Stats : Type 0} where
  unfoldable pub read_entered :
      Bytes → Answer Stats → Option MountState → SpaceReader → Option Stats × SpaceReader
  unfolding spawn_read set_warned
  read_entered mount answer none r = (none, r)
  read_entered mount answer (some s) r = if r.flags s.in_flight then (none, r) else (
    stats_of answer,
    set_warned mount s (warned_after answer s.warned) (spawn_read mount s (spawns answer) r),
  )

  unfoldable pub read : Bytes → Answer Stats → SpaceReader → Option Stats × SpaceReader
  unfolding enter read_entered lookup
  read mount answer r =
      let r' = enter mount r in read_entered mount answer (lookup mount r'.mounts) r'

unfoldable pub retain : List Bytes → (ℕ → Bool) → Assoc Bytes MountState → Assoc Bytes MountState
unfolding eqb
retain current flags [] = []
retain current flags ((mount, s) ∷ m) =
    if any (λ c. eqb c mount) current || flags s.in_flight
    then (mount, s) ∷ retain current flags m
    else retain current flags m

unfoldable pub retain_mounts : List Bytes → SpaceReader → SpaceReader
unfolding retain
retain_mounts current r = record r { mounts = retain current r.flags r.mounts }

abbrev pub in_front : Thread → Option (Thread × List Thread) → Option (Thread × List Thread)
in_front t none = none
in_front t (some (u, rest)) = some (u, t ∷ rest)

-- The thread at a place, and the others.
abbrev pub thread_at : ℕ → List Thread → Option (Thread × List Thread)
thread_at i [] = none
thread_at zero (t ∷ ts) = some (t, ts)
thread_at (suc i) (t ∷ ts) = in_front t (thread_at i ts)

-- A thread ends, and its guard clears its flag.
unfoldable pub finish : ℕ → SpaceReader → SpaceReader
finish i r = elim (thread_at i r.threads) [
  | none ↦ r
  | some (t, rest) ↦ record r { flags = store t.1 false r.flags; threads = rest }
]

pub data Operation (Stats : Type 0) : Type 0 where
  reads : Bytes → Answer Stats → Operation Stats
  retains : List Bytes → Operation Stats
  finishes : ℕ → Operation Stats

module _ {Stats : Type 0} where
  unfoldable pub operate : Operation Stats → SpaceReader → SpaceReader
  unfolding read retain_mounts finish
  operate (reads mount answer) r = (read mount answer r).1
  operate (retains current) r = retain_mounts current r
  operate (finishes i) r = finish i r

  unfoldable pub operate_all : List (Operation Stats) → SpaceReader → SpaceReader
  unfolding operate
  operate_all [] r = r
  operate_all (o ∷ os) r = operate_all os (operate o r)

-- The threads that read a mount.
abbrev pub outstanding : Bytes → List Thread → ℕ
outstanding mount [] = 0
outstanding mount (t ∷ ts) =
    if eqb t.0 mount then suc (outstanding mount ts) else outstanding mount ts
