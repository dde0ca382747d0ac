-- ===== src/Watcher/Ticking.antt =====
-- src/logs/watcher.rs: a tick of the main loop, and the index of paths.
use witness.Prelude.{ℕ, ◌≡◌, refl, ◌∙◌, subst, inl, inr, Option, none, some, [], ◌∷◌, Bool-cases}
use witness.Assoc.{Assoc, lookup}
use witness.Crates.{Crates}
use witness.Sink.{Sink}
use witness.Structured.Classify.{FileParseOpts}
use witness.Watcher.State.{TailedFile, FileId, same_id}
use witness.Watcher.Identity.{FileSystem, file_id_key}
use witness.Watcher.Registry.{Registry}
use witness.Watcher.Poll.{poll_all}
use witness.Watcher.Schedule.{
  removable, flush_each, flush_expired_records, nearest, Main, poll_tick,
}
use witness.Watcher.Index.{IsIndexed}
use witness.Watcher.Ticks.{evict_all-IsIndexed, poll_all-IsIndexed}
use witness.Multiline.Record.{MultilineOpts}
use witness.Multiline.Loop.{flush_if_expired}
use witness.Multiline.Kept.{Kept, flush_if_expired-Kept}

-- Two answers to a lookup that agree but for what reading changes in a file.
abbrev Alike : Option TailedFile → Option TailedFile → Type 0
Alike none none = Unit
Alike none (some u) = ⊥
Alike (some t) none = ⊥
Alike (some t) (some u) = Kept t u

Alike-refl : (o : Option TailedFile) → Alike o o
Alike-refl none = tt
Alike-refl (some t) = (refl, refl)

back :
    (o : Option TailedFile) (u : TailedFile)
    → Alike o (some u)
    → (t : TailedFile) × (o ≡ some t) × Kept t u
back none u a = absurd a
back (some t) u a = (t, refl, a)

forth :
    (o : Option TailedFile) (t : TailedFile)
    → Alike (some t) o
    → (u : TailedFile) × (o ≡ some u) × Kept t u
forth none t a = absurd a
forth (some u) t a = (u, refl, a)

Alike-IsIndexed :
    (r : Registry) (files : Assoc FileId TailedFile)
    → ((id : FileId) → Alike (lookup id r.files) (lookup id files))
    → IsIndexed r
    → IsIndexed (record { files = files; index = r.index })
Alike-IsIndexed r files alike x = record {
  keyed = λ id u e.
      let (t, here, kept) =
        back (lookup id r.files) u (subst (λ o. Alike (lookup id r.files) o) e (alike id)) in
      kept.1 ∙ x.keyed id t here;
  led = λ p id e.
      let (t, here, at) = x.led p id e in
      let (u, found, kept) =
        forth (lookup id files) t (subst (λ o. Alike o (lookup id files)) here (alike id)) in
      (u, found, kept.0 ∙ at);
}

module _ (crates : Crates) (opts : FileParseOpts) where
  open crates use {Value}

  flush_each-Alike :
      (ml : MultilineOpts) (now later : ℕ) (m : Assoc FileId TailedFile) (near : Option ℕ)
      (k : Sink Value) (j : FileId)
      → Alike (lookup j m) (lookup j (flush_each crates opts ml now later near m k).1)
  unfolding flush_each lookup
  flush_each-Alike ml now later [] near k j = tt
  flush_each-Alike ml now later ((id, t) ∷ m) near k j = elim (Bool-cases (same_id id j)) [
    | inl e ↦ rw e (flush_if_expired-Kept crates opts ml now later t k)
    | inr e ↦ rw e (
        flush_each-Alike ml now later m
          (nearest near (flush_if_expired crates opts ml now later t k).0)
          (flush_if_expired crates opts ml now later t k).2 j)
  ]

  flush_expired-Alike :
      (ml : Option MultilineOpts) (now later : ℕ) (m : Assoc FileId TailedFile) (k : Sink Value)
      (j : FileId)
      → Alike (lookup j m) (lookup j (flush_expired_records crates opts ml now later m k).1)
  unfolding flush_expired_records
  flush_expired-Alike none now later m k j = Alike-refl (lookup j m)
  flush_expired-Alike (some ml) now later m k j = flush_each-Alike ml now later m none k j

  -- A tick of the main loop (poll every file, flush the records that are due, evict the stale files)
  -- keeps the registry in order, whatever the file system answers.
  pub poll_tick-IsIndexed :
      (fs : FileSystem) (clock : ℕ → ℕ) (now later : ℕ) (ml : Option MultilineOpts)
      (s : Main crates opts)
      → IsIndexed s.registry
      → IsIndexed (poll_tick crates opts fs clock now later ml s).registry
  unfolding poll_tick
  poll_tick-IsIndexed fs clock now later ml s x =
      let polled =
        poll_all crates opts fs clock ml
          (record { registry = s.registry; sink = s.sink; total_bytes = 0 }) in
      let flushed =
        flush_expired_records crates opts ml now later polled.registry.files polled.sink in
      evict_all-IsIndexed (removable flushed.1)
        (record { files = flushed.1; index = polled.registry.index })
        (Alike-IsIndexed polled.registry flushed.1
          (λ j. flush_expired-Alike ml now later polled.registry.files polled.sink j)
          (poll_all-IsIndexed crates opts fs clock ml
            (record { registry = s.registry; sink = s.sink; total_bytes = 0 }) x))
