-- ===== src/Unified/Delivery.antt =====
-- src/logs/unified.rs: what a phase has shipped, in terms of the lines that `log` printed.
use witness.Prelude.{
  ℕ, ◌≡◌, refl, sym, ap, ◌∙◌, inl, inr, Bool, false, Option, List, [], ◌∷◌, ◌++◌, append-nil,
  append_assoc, Bool-cases,
}
use witness.Prelude.Str.{Bytes}
use witness.Prelude.Int.{ℤ}
use witness.Std.Case.{Case}
use witness.Crates.{Crates}
use witness.Sink.{Entry}
use witness.Unified.Parse.{Checkpoint, LogEntry}
use witness.Unified.Reader.{
  Read, line, failure, Mode, reading, waiting, exited, finished, failed, cancelled, reconcile,
  Machine, Event, read, elapsed, cancel, save_final, is_passed_over, attempt, read_next, step_in,
  step, read_stream,
}
use witness.Unified.Attempt.{
  shipped_line, shipped, position_line, position_after, shipped-append, position_after-append,
  attempt_cases,
}

-- How the lines that are left stand in the machine.
abbrev pub Left : Mode → List Read → List Read → Type 0
Left reading input rest = rest ≡ input
Left (waiting text) input rest = (rest ≡ line text ∷ input) × (is_passed_over text ≡ false)
Left (exited finished) input rest = rest ≡ []
Left (exited cancelled) input rest = Unit
Left (exited failed) input rest = rest ≡ input
Left (exited reconcile) input rest = Unit

module _ (crates : Crates) (case : Case) (of_i64 : ℤ → crates.Value)
    (decode : Bytes → Option (LogEntry (crates.Value))) (encode : Checkpoint → Option Bytes)
    (dedupe : Option Checkpoint) where
  open crates use {Value}

  abbrev worth : List Read → List (Entry Value)
  worth = shipped crates case of_i64 decode encode dedupe

  abbrev worth_line : Read → List (Entry Value)
  worth_line = shipped_line crates case of_i64 decode encode dedupe

  abbrev reached : Option Checkpoint → List Read → Option Checkpoint
  reached = position_after crates case of_i64 decode encode dedupe

  module _ (all : List Read) (taken : List (Entry Value)) (initial : Option Checkpoint) where
    -- The lines fall into those that were handled and those that are left: the sink has the entries of
    -- the former, once and in order, and the checkpoint is the last one among them.
    abbrev pub Delivered : Machine Value → Type 0
    Delivered m =
        (handled : List Read) × (rest : List Read) × (all ≡ handled ++ rest)
        × (m.sink.taken ≡ taken ++ shipped crates case of_i64 decode encode dedupe handled)
        × (m.state.last ≡ position_after crates case of_i64 decode encode dedupe initial handled)
        × Left m.mode m.input rest

    consumed-Delivered :
        (l : Read) (m m' : Machine Value) (handled rest : List Read)
        → all ≡ handled ++ l ∷ rest
        → m.sink.taken ≡ taken ++ worth handled
        → m.state.last ≡ reached initial handled
        → m'.sink.taken ≡ m.sink.taken ++ worth_line l
        → m'.state.last ≡ position_line crates case of_i64 decode encode dedupe m.state.last l
        → Left m'.mode m'.input rest
        → Delivered m'
    consumed-Delivered l m m' handled rest at t c t' c' left = (
      handled ++ l ∷ [],
      rest,
      at ∙ sym (append_assoc handled (l ∷ []) rest),
      t'
          ∙ ap (λ xs. xs ++ worth_line l) t
          ∙ append_assoc taken (worth handled) (worth_line l)
          ∙ ap (◌++◌ taken) (
              ap (◌++◌ (worth handled)) (sym (append-nil (worth_line l)))
              ∙ sym (shipped-append crates case of_i64 decode encode dedupe handled (l ∷ []))),
      c'
          ∙ ap (λ o. position_line crates case of_i64 decode encode dedupe o l) c
          ∙ sym (
              position_after-append crates case of_i64 decode encode dedupe initial handled
                (l ∷ [])),
      left,
    )

    module _ (live : Bool) where
      attempt-Delivered :
          (now : ℕ) (text : Bytes) (m : Machine Value) (handled : List Read)
          → all ≡ handled ++ line text ∷ m.input
          → m.sink.taken ≡ taken ++ worth handled
          → m.state.last ≡ reached initial handled
          → is_passed_over text ≡ false
          → Delivered (attempt crates case of_i64 decode encode dedupe live now text m)
      attempt-Delivered now text m handled at t c short =
          elim (attempt_cases crates case of_i64 decode encode dedupe live now text m short) [
            | inl (t', c', mode, i') ↦
                consumed-Delivered (line text) m
                  (attempt crates case of_i64 decode encode dedupe live now text m) handled m.input
                  at t c t' c' (rw mode (sym i'))
            | inr (t', c', inl mode, i') ↦
                (handled, line text ∷ m.input, at, t' ∙ t, c' ∙ c, rw (mode, i') (refl, short))
            | inr (t', c', inr mode, i') ↦
                (handled, line text ∷ m.input, at, t' ∙ t, c' ∙ c, rw mode tt)
          ]

      read_next-Delivered :
          (now : ℕ) (input : List Read) (m : Machine Value) (handled : List Read)
          → input ≡ m.input
          → m.mode ≡ reading
          → all ≡ handled ++ m.input
          → m.sink.taken ≡ taken ++ worth handled
          → m.state.last ≡ reached initial handled
          → Delivered (read_next crates case of_i64 decode encode dedupe live now input m)
      unfolding read_next save_final
      read_next-Delivered now [] m handled i mode at t c =
          (handled, [], at ∙ ap (◌++◌ handled) (sym i), t, c, refl)
      read_next-Delivered now (failure ∷ rest) m handled i mode at t c =
          consumed-Delivered failure m (save_final encode (record m { input = rest }) failed)
            handled rest (rw i at) t c (sym (append-nil m.sink.taken)) refl refl
      read_next-Delivered now (line text ∷ rest) m handled i mode at t c =
          elim (Bool-cases (is_passed_over text)) [
            | inl over ↦ rw over (
                consumed-Delivered (line text) m (record m { input = rest }) handled rest (rw i at)
                  t c (rw over (sym (append-nil m.sink.taken))) (rw over refl) (rw mode refl))
            | inr entry ↦
                rw entry (
                  attempt-Delivered now text (record m { input = rest }) handled (rw i at) t c
                    entry)
          ]

      step_in-Delivered :
          (mode : Mode) (event : Event) (m : Machine Value)
          → m.mode ≡ mode
          → Delivered m
          → Delivered (step_in crates case of_i64 decode encode dedupe live mode event m)
      unfolding step_in save_final
      step_in-Delivered reading (read now) m e (handled, rest, at, t, c, left) =
          read_next-Delivered now m.input m handled refl e (at ∙ ap (◌++◌ handled) (rw e at left)) t
            c
      step_in-Delivered reading cancel m e (handled, rest, at, t, c, left) =
          (handled, rest, at, t, c, tt)
      step_in-Delivered reading (elapsed now) m e d = d
      step_in-Delivered (waiting text) (elapsed now) m e (handled, rest, at, t, c, left) =
          let left' : Left (waiting text) m.input rest = rw e at left in
          attempt-Delivered now text m handled (at ∙ ap (◌++◌ handled) left'.0) t c left'.1
      step_in-Delivered (waiting text) cancel m e (handled, rest, at, t, c, left) =
          (handled, rest, at, t, c, tt)
      step_in-Delivered (waiting text) (read now) m e d = d
      step_in-Delivered (exited exit) event m e d = d

      -- A phase, whatever it waits for, whatever the sink answers and however it ends: if the lines that
      -- `log` prints fall at its start into handled and unhandled ones, they do at its end. What the sink
      -- has taken is what the handled lines are worth, each once and in order; the checkpoint is the last
      -- position among them; and the unhandled lines are those not read yet, behind the line in hand while
      -- there is no room for it, and none once the phase has finished by itself.
      pub read_stream-Delivered :
          (events : List Event) (m : Machine Value)
          → Delivered m
          → Delivered (read_stream crates case of_i64 decode encode dedupe live events m)
      unfolding read_stream step
      read_stream-Delivered [] m d = d
      read_stream-Delivered (e ∷ es) m d =
          read_stream-Delivered es (step crates case of_i64 decode encode dedupe live e m)
            (unfold step in step_in-Delivered m.mode e m refl d)
