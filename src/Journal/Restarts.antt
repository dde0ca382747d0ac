-- ===== src/Journal/Restarts.antt =====
-- src/logs/journal.rs: what `tail_journal` has shipped, over all its restarts.
use witness.Prelude.{
  ℕ, ◌≤◌, ◌≡◌, refl, sym, ap, ◌∙◌, subst, ◌≢◌, ◌⊎◌, inl, inr, Bool, true, false, ◌||◌, Option, none,
  some, List, [], ◌∷◌, ◌++◌, arith, All,
}
use witness.Prelude.Str.{Bytes}
use witness.Std.Case.{Case}
use witness.Crates.{Crates}
use witness.Sink.{Entry, Sink}
use witness.Source.{next_backoff}
use witness.Journal.{ServiceFilter, JournalEntry}
use witness.Journal.Reader.{
  Read, LoopExit, cancelled, failed, Mode, reading, waiting, exited, load_cursor, spawn_arguments,
  run_journalctl,
}
use witness.Journal.Attempt.{shipped, cursor_after}
use witness.Journal.Cursor.{
  after, Distinct, HasCursor, EveryCursor, All-left, All-after, cursor_after-HasAny,
}
use witness.Journal.Resume.{handled_at_exit, restart_exact}
use witness.Journal.Tail.{
  Attempt, Status, restarting, running, stopped, Tailer, cursor_file, on_exit, run_of, turn, turns,
  tail_journal, first_backoff, max_backoff,
}

-- A cursor that is read back from the file as it was written.
abbrev pub Readable : Bytes → Type 0
Readable d = (replaces : ℕ → Bool) → load_cursor (cursor_file (some d) replaces) ≡ some d

module _ (crates : Crates) (case : Case) (decode : Bytes → Option (JournalEntry (crates.Value)))
    (filter : ServiceFilter) (journal : List Read)
    (distinct : Distinct crates case decode filter journal)
    (complete : All (HasCursor crates case decode filter) journal)
    (readable : All (EveryCursor crates case decode filter Readable) journal) where
  open crates use {Value}

  abbrev behind : Bytes → List Read
  behind d = after crates case decode filter d journal

  abbrev worth : List Read → List (Entry Value)
  worth = shipped crates case decode filter

  -- journalctl cannot be started, or it prints a beginning of what stands behind the cursor in the end.
  abbrev pub Follows : Attempt → Type 0
  Follows a =
      (d : Bytes)
      → (a.journalctl (spawn_arguments (some d)) ≡ none)
        ⊎ ((printed : List Read) × (to_come : List Read) × (a.journalctl (spawn_arguments (some d))
              ≡ some printed)
            × (after crates case decode filter d journal ≡ printed ++ to_come))

  abbrev pub Writes : Attempt → Type 0
  Writes a = (n : ℕ) → a.replaces n ≡ true

  module _ (total : List (Entry Value)) where
    -- What is shipped and what stands behind the cursor are the entries there are in all.
    abbrev pub Exact : Option Bytes → List (Entry Value) → Type 0
    Exact cursor taken =
        (d : Bytes) × (cursor ≡ some d)
        × Readable d
        × (taken ++ shipped crates case decode filter (after crates case decode filter d journal)
            ≡ total)

    abbrev StatusExact : Status → Option Bytes → List (Entry Value) → Type 0
    StatusExact restarting cursor taken = Exact cursor taken
    StatusExact running cursor taken = Unit
    StatusExact stopped cursor taken = Exact cursor taken

    abbrev Standing : Tailer Value → Type 0
    Standing t = StatusExact t.status t.cursor t.sink.taken × (t.backoff ≤ max_backoff)

    not_started :
        (a : Attempt) (t : Tailer Value)
        → a.journalctl (spawn_arguments (load_cursor (cursor_file t.cursor a.replaces))) ≡ none
        → ((run_of crates case decode filter a t).file.content ≡ t.cursor)
          × ((run_of crates case decode filter a t).sink.taken ≡ t.sink.taken)
    unfolding run_journalctl
    not_started a t fails = rw (fails, run_journalctl) (refl, refl)

    settled :
        (status : Status) (cursor : Option Bytes) (taken : List (Entry Value))
        → StatusExact status cursor taken
        → status ≢ running
        → Exact cursor taken
    settled restarting cursor taken e h = e
    settled running cursor taken e h = absurd (h refl)
    settled stopped cursor taken e h = e

    run-Exact :
        (a : Attempt) (t : Tailer Value) (exit : LoopExit)
        → Follows a
        → Writes a
        → Exact t.cursor t.sink.taken
        → (run_of crates case decode filter a t).mode ≡ exited exit
        → Exact
            (run_of crates case decode filter a t).file.content
            (run_of crates case decode filter a t).sink.taken
    run-Exact a t exit follows writes (d, at, reads, e) left =
        let loads : load_cursor (cursor_file t.cursor a.replaces) ≡ some d =
          ap (λ o. load_cursor (cursor_file o a.replaces)) at ∙ reads a.replaces in
        elim (follows d) [
          | inl fails ↦
              let (c, s) =
                not_started a t (ap (λ o. a.journalctl (spawn_arguments o)) loads ∙ fails) in
              (d, c ∙ at, reads, ap (λ es. es ++ worth (behind d)) s ∙ e)
          | inr (printed, to_come, prints, stands) ↦
              let file = cursor_file t.cursor a.replaces in
              let (xs, rest, whole, taken, last) =
                handled_at_exit crates case decode filter journal distinct complete a.journalctl
                  file d at loads printed to_come prints stands t.sink a.events exit left writes in
              let (c', is, same) =
                restart_exact crates case decode filter journal distinct complete a.journalctl file
                  d at loads printed to_come prints stands t.sink a.events exit left writes in
              (c', is, last_reads d xs rest reads whole c' (sym last ∙ is), same ∙ e)
        ]
      where
        last_reads :
            (d : Bytes) (xs rest : List Read)
            → Readable d
            → behind d ≡ xs ++ rest
            → (c' : Bytes) → cursor_after crates case decode filter (some d) xs ≡ some c'
            → Readable c'
        last_reads d xs rest reads whole =
            let P = EveryCursor crates case decode filter Readable in
            cursor_after-HasAny crates case decode filter Readable (some d) xs (same d reads) (
              All-left crates case decode filter P xs rest
                (subst (All P) whole (All-after crates case decode filter P d journal readable)))
          where
            same : (d : Bytes) → Readable d → (c : Bytes) → some d ≡ some c → Readable c
            same d reads c e = let eq : d ≡ c = cc in subst Readable eq reads

    backoff_bound : (b : ℕ) → next_backoff b max_backoff ≤ max_backoff
    unfolding next_backoff
    backoff_bound b = omega arith

    on_exit-Exact :
        (mode : Mode) (stops : Bool) (backoff : ℕ) (cursor : Option Bytes)
        (taken : List (Entry Value))
        → ((exit : LoopExit) → mode ≡ exited exit → Exact cursor taken)
        → backoff ≤ max_backoff
        → StatusExact (on_exit mode stops backoff).1 cursor taken
          × ((on_exit mode stops backoff).0 ≤ max_backoff)
    unfolding on_exit
    on_exit-Exact reading stops backoff cursor taken h b = (tt, b)
    on_exit-Exact (waiting text) stops backoff cursor taken h b = (tt, b)
    on_exit-Exact (exited cancelled) stops backoff cursor taken h b = (h cancelled refl, b)
    on_exit-Exact (exited (failed r)) true backoff cursor taken h b = (h (failed r) refl, b)
    on_exit-Exact (exited (failed r)) false backoff cursor taken h b =
        (h (failed r) refl, backoff_bound backoff)

    turn-Standing :
        (a : Attempt) (t : Tailer Value)
        → Follows a
        → Writes a
        → Exact t.cursor t.sink.taken
        → t.backoff ≤ max_backoff
        → Standing (turn crates case decode filter a t)
    unfolding turn
    turn-Standing a t follows writes e b =
        let m = run_of crates case decode filter a t in
        on_exit-Exact m.mode (a.cancelled_by_then || a.cancelled_asleep) t.backoff m.file.content
          m.sink.taken (λ exit left. run-Exact a t exit follows writes e left) b

    turns-Standing :
        (attempts : List Attempt) (t : Tailer Value)
        → All (λ a. Follows a × Writes a) attempts
        → Standing t
        → Standing (turns crates case decode filter attempts t)
    unfolding turns
    turns-Standing [] t h s = s
    turns-Standing (a ∷ later) t h s =
        by_status (turns-Standing later (turn crates case decode filter a t) h.1) t.status refl
      where
        by_status :
            (Standing (turn crates case decode filter a t)
              → Standing
                  (turns crates case decode filter later (turn crates case decode filter a t)))
            → (status : Status) → t.status ≡ status
            → Standing (elim status [
              | restarting ↦
                  turns crates case decode filter later (turn crates case decode filter a t)
              | running ↦ t
              | stopped ↦ t
            ])
        by_status on restarting e = on (
            turn-Standing a t h.0.0 h.0.1 (subst (λ x. StatusExact x t.cursor t.sink.taken) e s.0)
              s.1)
        by_status on running e = s
        by_status on stopped e = s

  -- However often journalctl fails and is started again, with each cursor written: while the tailer
  -- waits to start it, or has stopped, what it shipped and what stands behind the cursor in its file are
  -- together the entries that stand behind the first cursor, each once and in order. It is assumed that
  -- every entry has a cursor of its own, which is read back as it was written, and that each journalctl
  -- prints a beginning of what stands behind the cursor that it is given in the end.
  pub tail_journal_exact :
      (attempts : List Attempt) (c : Bytes) (sink : Sink Value)
      → All (λ a. Follows a × Writes a) attempts
      → Readable c
      → (tail_journal crates case decode filter attempts (some c) sink).status ≢ running
      → (let t = tail_journal crates case decode filter attempts (some c) sink in
          (c' : Bytes) × (t.cursor ≡ some c')
          × (t.sink.taken ++ worth (behind c') ≡ sink.taken ++ worth (behind c)))
  unfolding tail_journal
  tail_journal_exact attempts c sink h reads over =
      let start : Tailer Value = record {
        cursor = some c;
        sink = sink;
        backoff = first_backoff;
        status = restarting;
      } in
      let total = sink.taken ++ worth (behind c) in
      let t = turns crates case decode filter attempts start in
      let s = turns-Standing total attempts start h ((c, refl, reads, refl), omega arith) in
      let (c', is, reads', e) = settled total t.status t.cursor t.sink.taken s.0 over in (c', is, e)
