-- ===== src/Journal/Resume.antt =====
-- src/logs/journal.rs: a run that follows another, from the cursor that was saved.
use witness.Prelude.{
  ◌≡◌, refl, sym, ap, ap₂, ◌∙◌, subst, Option, none, some, List, [], ◌++◌, append_assoc, All,
}
use witness.Prelude.Str.{Bytes}
use witness.Std.Case.{Case}
use witness.Crates.{Crates}
use witness.Sink.{Entry, Sink}
use witness.Journal.{ServiceFilter, JournalEntry}
use witness.Source.{CheckpointFile, Replaces}
use witness.Journal.Delivery.{Delivered, run_journalctl-Delivered}
use witness.Journal.Saved.{AtExit, run_journalctl-Saves}
use witness.Journal.Reader.{
  LoopExit, Event, spawn_arguments, load_cursor, Machine, run_journalctl, exited, Read,
}
use witness.Journal.Cursor.{after, Distinct, HasCursor, All-left, All-after, resumed}
use witness.Journal.Attempt.{shipped, cursor_after, shipped-append}

module _ (crates : Crates) (case : Case) (decode : Bytes → Option (JournalEntry (crates.Value)))
    (filter : ServiceFilter) where
  open crates use {Value}

  some_ne_none : (c : Bytes) → some c ≡ none → ⊥
  some_ne_none c e = cc

  -- A run from a cursor: what journalctl prints until its end is a beginning of what will ever stand in
  -- the journal behind the cursor.
  module _ (journal : List Read) (distinct : Distinct crates case decode filter journal)
      (complete : All (HasCursor crates case decode filter) journal)
      (journalctl : List Bytes → Option (List Read)) (file : CheckpointFile) (c : Bytes)
      (holds : file.content ≡ some c) (loads : load_cursor file ≡ some c)
      (printed to_come : List Read) (prints : journalctl (spawn_arguments (some c)) ≡ some printed)
      (follows : after crates case decode filter c journal ≡ printed ++ to_come) (sink : Sink Value)
      (events : List Event) where
    abbrev machine_after : Machine Value
    machine_after = run_journalctl crates case decode filter journalctl file sink events

    abbrev behind : Bytes → List Read
    behind d = after crates case decode filter d journal

    abbrev worth : List Read → List (Entry Value)
    worth = shipped crates case decode filter

    prints_loaded : journalctl (spawn_arguments (load_cursor file)) ≡ some printed
    prints_loaded = ap (λ o. journalctl (spawn_arguments o)) loads ∙ prints

    delivered : Delivered crates case decode filter printed sink.taken (some c) machine_after
    delivered =
        subst (λ o. Delivered crates case decode filter printed sink.taken o machine_after) loads
          (run_journalctl-Delivered crates case decode filter journalctl printed file sink events
            (holds ∙ sym loads) prints_loaded)

    next_given :
        (xs rest : List Read)
        → behind c ≡ xs ++ rest
        → (c' : Bytes) × (cursor_after crates case decode filter (some c) xs ≡ some c')
          × (worth (behind c') ≡ worth rest)
    next_given xs rest at =
        resumed crates case decode filter journal c xs rest [] distinct
          (All-left crates case decode filter (HasCursor crates case decode filter) xs rest (
            subst (All (HasCursor crates case decode filter)) at (
              All-after crates case decode filter (HasCursor crates case decode filter) c journal
                complete)))
          at refl

    in_file :
        (exit : LoopExit)
        → machine_after.mode ≡ exited exit
        → Replaces file
        → machine_after.file.content ≡ machine_after.state.last_cursor
    in_file exit left writes =
        subst (λ m. AtExit m machine_after.file.content machine_after.state.last_cursor) left
          (run_journalctl-Saves crates case decode filter journalctl printed file sink events writes
            (λ e. absurd (some_ne_none c (sym loads ∙ e))) prints_loaded).2

    -- A run that left: the entries that were handled are shipped, and the file has their last cursor.
    pub handled_at_exit :
        (exit : LoopExit)
        → machine_after.mode ≡ exited exit
        → Replaces file
        → (xs : List Read) × (rest : List Read) × (behind c ≡ xs ++ rest)
          × (machine_after.sink.taken ≡ sink.taken ++ worth xs)
          × (machine_after.file.content ≡ cursor_after crates case decode filter (some c) xs)
    handled_at_exit exit left writes =
        let (kept, twice, rest, at, t, last, f, standing) = delivered in
        (
          kept ++ twice,
          rest ++ to_come,
          follows ∙ ap (λ ls. ls ++ to_come) at ∙ append_assoc (kept ++ twice) rest to_come,
          t,
          in_file exit left writes ∙ last,
        )

    -- A run that is cut off anywhere, even by a crash, and whatever writes of the cursor failed: the next
    -- run is given every entry that was not taken, behind those that were taken since the last save. It
    -- is assumed that every entry has a cursor of its own, that the file holds a cursor which is read back
    -- as it is, and that journalctl prints a beginning of what stands behind it in the end.
    pub restart_covers :
        (kept : List Read) × (twice : List Read) × (rest : List Read) × (c' : Bytes) × (behind c
          ≡ (kept ++ twice) ++ rest)
        × (machine_after.sink.taken ≡ sink.taken ++ worth (kept ++ twice))
        × (machine_after.file.content ≡ some c')
        × (worth (behind c') ≡ worth (twice ++ rest))
    restart_covers =
        let (kept, twice, rest, at, t, last, f, left) = delivered in
        let whole =
          follows ∙ ap (λ ls. ls ++ to_come) at ∙ append_assoc (kept ++ twice) rest to_come in
        let (c', is, next) =
          next_given kept (twice ++ (rest ++ to_come))
            (whole ∙ append_assoc kept twice (rest ++ to_come)) in
        (kept, twice, rest ++ to_come, c', whole, t, f ∙ is, next)

    -- A run that left by itself or was cancelled, with the cursor written: what it shipped and what the
    -- next run is given are together the entries of the journal, each once and in order.
    pub restart_exact :
        (exit : LoopExit)
        → machine_after.mode ≡ exited exit
        → Replaces file
        → (c' : Bytes) × (machine_after.file.content ≡ some c')
          × (machine_after.sink.taken ++ worth (behind c') ≡ sink.taken ++ worth (behind c))
    restart_exact exit left writes =
        let (xs, rest, at, t, last) = handled_at_exit exit left writes in
        let (c', is, next) = next_given xs rest at in
        (
          c',
          last ∙ is,
          ap₂ (◌++◌) t next
              ∙ append_assoc sink.taken (worth xs) (worth rest)
              ∙ ap (◌++◌ sink.taken)
                  (sym (shipped-append crates case decode filter xs rest) ∙ ap worth (sym at)),
        )
