-- ===== src/Journal/Delivery.antt =====
-- src/logs/journal.rs: what a run has shipped, and what it has saved, in terms of the lines printed.
use witness.Prelude.{
  ◌≡◌, refl, sym, ap, ◌∙◌, ◌⊎◌, inl, inr, false, Option, some, List, [], ◌∷◌, ◌++◌, append-nil,
  append_assoc, ltb, Bool-cases, length,
}
use witness.Prelude.Str.{Bytes}
use witness.Std.Case.{Case}
use witness.Crates.{Crates}
use witness.Sink.{Entry}
use witness.Journal.{Sink, ServiceFilter, JournalEntry}
use witness.Source.{CheckpointFile}
use witness.Journal.Reader.{
  machine, spawn_arguments, load_cursor, run_journalctl, Read, line, failure, Mode, reading,
  waiting, exited, Event, read, elapsed, cancel, Machine, LoopExit, failed, cancelled, stream_ended,
  read_error, max_line_len, save_final, attempt, read_next, step_in, step, run,
}
use witness.Journal.Attempt.{
  save_cursor_cases, shipped_line, shipped, cursor_line, cursor_after, shipped-append,
  cursor_after-append, attempt_cases,
}

module _ (crates : Crates) (case : Case) (decode : Bytes → Option (JournalEntry (crates.Value)))
    (filter : ServiceFilter) where
  open crates use {Value}

  -- How the lines that are left stand in the machine.
  abbrev pub Left : Mode → List Read → List Read → Type 0
  Left reading input rest = rest ≡ input
  Left (waiting text) input rest =
      (rest ≡ line text ∷ input) × (ltb max_line_len (length text) ≡ false)
  Left (exited cancelled) input rest = Unit
  Left (exited (failed reason)) input rest = rest ≡ input

  module _ (all : List Read) (taken : List (Entry Value)) (cursor : Option Bytes) where
    -- The lines fall into those behind the cursor that is saved, those that were handled after it, and
    -- those that are left: the sink has the entries of the first two, once and in order.
    abbrev pub Delivered : Machine Value → Type 0
    Delivered m =
        (saved : List Read) × (unsaved : List Read) × (rest : List Read) × (all
          ≡ (saved ++ unsaved) ++ rest)
        × (m.sink.taken ≡ taken ++ shipped crates case decode filter (saved ++ unsaved))
        × (m.state.last_cursor ≡ cursor_after crates case decode filter cursor (saved ++ unsaved))
        × (m.file.content ≡ cursor_after crates case decode filter cursor saved)
        × Left m.mode m.input rest

    consumed-Delivered :
        (l : Read) (m m' : Machine Value) (saved unsaved rest : List Read)
        → all ≡ (saved ++ unsaved) ++ l ∷ rest
        → m.sink.taken ≡ taken ++ shipped crates case decode filter (saved ++ unsaved)
        → m.state.last_cursor ≡ cursor_after crates case decode filter cursor (saved ++ unsaved)
        → m.file.content ≡ cursor_after crates case decode filter cursor saved
        → m'.sink.taken ≡ m.sink.taken ++ shipped_line crates case decode filter l
        → m'.state.last_cursor ≡ cursor_line crates case decode filter m.state.last_cursor l
        → (m'.file.content ≡ m.file.content) ⊎ (m'.file.content ≡ m'.state.last_cursor)
        → Left m'.mode m'.input rest
        → Delivered m'
    consumed-Delivered l m m' saved unsaved rest at t c f t' c' f' left = elim f' [
      | inl same ↦ (
        saved,
        unsaved ++ l ∷ [],
        rest,
        at ∙ regroup ∙ ap (λ xs. xs ++ rest) again,
        rw (sym again) taken_now,
        rw (sym again) cursor_now,
        same ∙ f,
        left,
      )
      | inr new ↦ (
        (saved ++ unsaved) ++ l ∷ [],
        [],
        rest,
        at ∙ regroup ∙ ap (λ xs. xs ++ rest) (sym (append-nil ((saved ++ unsaved) ++ l ∷ []))),
        rw (append-nil ((saved ++ unsaved) ++ l ∷ [])) taken_now,
        rw (append-nil ((saved ++ unsaved) ++ l ∷ [])) cursor_now,
        new ∙ cursor_now,
        left,
      )
    ]
      where
        again : (saved ++ unsaved) ++ l ∷ [] ≡ saved ++ (unsaved ++ l ∷ [])
        again = append_assoc saved unsaved (l ∷ [])

        regroup : (saved ++ unsaved) ++ l ∷ rest ≡ ((saved ++ unsaved) ++ l ∷ []) ++ rest
        regroup = sym (append_assoc (saved ++ unsaved) (l ∷ []) rest)

        taken_now :
            m'.sink.taken
            ≡ taken ++ shipped crates case decode filter ((saved ++ unsaved) ++ l ∷ [])
        taken_now =
            t'
            ∙ ap (λ xs. xs ++ shipped_line crates case decode filter l) t
            ∙ append_assoc taken (shipped crates case decode filter (saved ++ unsaved))
                (shipped_line crates case decode filter l)
            ∙ ap (◌++◌ taken) (
                ap (◌++◌ (shipped crates case decode filter (saved ++ unsaved)))
                  (sym (append-nil (shipped_line crates case decode filter l)))
                ∙ sym (shipped-append crates case decode filter (saved ++ unsaved) (l ∷ [])))

        cursor_now :
            m'.state.last_cursor
            ≡ cursor_after crates case decode filter cursor ((saved ++ unsaved) ++ l ∷ [])
        cursor_now =
            c'
            ∙ ap (λ o. cursor_line crates case decode filter o l) c
            ∙ sym (cursor_after-append crates case decode filter cursor (saved ++ unsaved) (l ∷ []))

    attempt-Delivered :
        (text : Bytes) (m : Machine Value) (saved unsaved : List Read)
        → all ≡ (saved ++ unsaved) ++ line text ∷ m.input
        → m.sink.taken ≡ taken ++ shipped crates case decode filter (saved ++ unsaved)
        → m.state.last_cursor ≡ cursor_after crates case decode filter cursor (saved ++ unsaved)
        → m.file.content ≡ cursor_after crates case decode filter cursor saved
        → ltb max_line_len (length text) ≡ false
        → Delivered (attempt crates case decode filter text m)
    attempt-Delivered text m saved unsaved at t c f short =
        elim (attempt_cases crates case decode filter text m short) [
          | inl ((t', c', f', i'), mode) ↦
              consumed-Delivered (line text) m (attempt crates case decode filter text m) saved
                unsaved m.input at t c f t' c' f' (rw mode (sym i'))
          | inr (t', s', f', mode, i') ↦ (
            saved,
            unsaved,
            line text ∷ m.input,
            at,
            t' ∙ t,
            ap (λ x. x.last_cursor) s' ∙ c,
            ap (λ x. x.content) f' ∙ f,
            rw (mode, i') (refl, short),
          )
        ]

    -- A save at the end: the lines are as they were handled, and the last cursor is saved or not.
    save_final-Delivered :
        (m : Machine Value) (exit : LoopExit) (saved unsaved rest : List Read)
        → all ≡ (saved ++ unsaved) ++ rest
        → m.sink.taken ≡ taken ++ shipped crates case decode filter (saved ++ unsaved)
        → m.state.last_cursor ≡ cursor_after crates case decode filter cursor (saved ++ unsaved)
        → m.file.content ≡ cursor_after crates case decode filter cursor saved
        → Left (exited exit) m.input rest
        → Delivered (save_final m exit)
    unfolding save_final
    save_final-Delivered m exit saved unsaved rest at t c f left =
        elim (save_cursor_cases m.state.last_cursor m.file) [
          | inl same ↦ (saved, unsaved, rest, at, t, c, same ∙ f, left)
          | inr new ↦ (
            saved ++ unsaved,
            [],
            rest,
            at ∙ ap (λ xs. xs ++ rest) (sym (append-nil (saved ++ unsaved))),
            rw (append-nil (saved ++ unsaved)) t,
            rw (append-nil (saved ++ unsaved)) c,
            new ∙ c,
            left,
          )
        ]

    read_next-Delivered :
        (input : List Read) (m : Machine Value) (saved unsaved : List Read)
        → input ≡ m.input
        → m.mode ≡ reading
        → all ≡ (saved ++ unsaved) ++ m.input
        → m.sink.taken ≡ taken ++ shipped crates case decode filter (saved ++ unsaved)
        → m.state.last_cursor ≡ cursor_after crates case decode filter cursor (saved ++ unsaved)
        → m.file.content ≡ cursor_after crates case decode filter cursor saved
        → Delivered (read_next crates case decode filter input m)
    unfolding read_next
    read_next-Delivered [] m saved unsaved i mode at t c f =
        save_final-Delivered m (failed stream_ended) saved unsaved m.input at t c f refl
    read_next-Delivered (failure ∷ rest) m saved unsaved i mode at t c f =
        let m' = record m { input = rest; mode = exited (failed read_error) } in
        let d =
          consumed-Delivered failure m m' saved unsaved rest (rw i at) t c f
            (sym (append-nil m.sink.taken)) refl (inl refl) refl in
        save_final-Delivered (record m { input = rest }) (failed read_error) d.0 d.1 d.2 d.3 d.4 d.5
          d.6 d.7
    read_next-Delivered (line text ∷ rest) m saved unsaved i mode at t c f =
        elim (Bool-cases (ltb max_line_len (length text))) [
          | inl long ↦ rw long (
              consumed-Delivered (line text) m (record m { input = rest }) saved unsaved rest
                (rw i at) t c f (rw long (sym (append-nil m.sink.taken))) (rw long refl) (inl refl)
                (rw mode refl))
          | inr short ↦ rw short (
              attempt-Delivered text (record m { input = rest }) saved unsaved (rw i at) t c f
                short)
        ]

    step_in-Delivered :
        (mode : Mode) (event : Event) (m : Machine Value)
        → m.mode ≡ mode
        → Delivered m
        → Delivered (step_in crates case decode filter mode event m)
    unfolding step_in
    step_in-Delivered reading read m e (saved, unsaved, rest, at, t, c, f, left) =
        read_next-Delivered m.input m saved unsaved refl e
          (at ∙ ap (λ xs. (saved ++ unsaved) ++ xs) (rw e at left)) t c f
    step_in-Delivered reading cancel m e (saved, unsaved, rest, at, t, c, f, left) =
        save_final-Delivered m cancelled saved unsaved rest at t c f tt
    step_in-Delivered reading elapsed m e d = d
    step_in-Delivered (waiting text) elapsed m e (saved, unsaved, rest, at, t, c, f, left) =
        let left' : Left (waiting text) m.input rest = rw e at left in
        attempt-Delivered text m saved unsaved (at ∙ ap (λ xs. (saved ++ unsaved) ++ xs) left'.0) t
          c f left'.1
    step_in-Delivered (waiting text) cancel m e (saved, unsaved, rest, at, t, c, f, left) =
        save_final-Delivered m cancelled saved unsaved rest at t c f tt
    step_in-Delivered (waiting text) read m e d = d
    step_in-Delivered (exited exit) event m e d = d

    pub run-Delivered :
        (events : List Event) (m : Machine Value)
        → Delivered m
        → Delivered (run crates case decode filter events m)
    unfolding run step
    run-Delivered [] m d = d
    run-Delivered (e ∷ es) m d =
        run-Delivered es (step crates case decode filter e m)
          (unfold step in step_in-Delivered m.mode e m refl d)

  -- A run of journalctl, whatever is waited for in it and whatever the sink and the file system
  -- answer: the lines it printed fall into those behind the cursor that is saved, those handled after
  -- it, and those left; the entries of the first two have been taken, each once and in order.
  pub run_journalctl-Delivered :
      (journalctl : List Bytes → Option (List Read)) (printed : List Read) (file : CheckpointFile)
      (sink : Sink Value) (events : List Event)
      → file.content ≡ load_cursor file
      → journalctl (spawn_arguments (load_cursor file)) ≡ some printed
      → Delivered printed sink.taken
          (load_cursor file)
          (run_journalctl crates case decode filter journalctl file sink events)
  unfolding run_journalctl
  run_journalctl-Delivered journalctl printed file sink events stored prints =
      rw (prints, run_journalctl)
        (run-Delivered printed sink.taken (load_cursor file) events
          (machine crates case decode filter (load_cursor file) file sink reading printed)
          ([], [], printed, refl, sym (append-nil sink.taken), refl, stored, refl))
