-- ===== src/Journal/Tail.antt =====
-- src/logs/journal.rs: `tail_journal`, which starts journalctl again when it has failed. An attempt is
-- what happens in one turn of the loop.
use witness.Prelude.{ℕ, Bool, ◌||◌, Option, List, [], ◌∷◌, if◌then◌else◌}
use witness.Prelude.Str.{Bytes}
use witness.Std.Case.{Case}
use witness.Crates.{Crates}
use witness.Sink.{Sink}
use witness.Source.{CheckpointFile, next_backoff}
use witness.Journal.{ServiceFilter, JournalEntry}
use witness.Journal.Reader.{
  Read, cancelled, failed, Mode, reading, waiting, exited, Event, Machine, run_journalctl,
}

-- In milliseconds.
abbrev pub first_backoff : ℕ
first_backoff = 1000

abbrev pub max_backoff : ℕ
max_backoff = 30000

-- What journalctl prints and what happens while it is read, what the file system answers to the writes
-- of the cursor, and whether the task is cancelled by then or while it sleeps.
pub record Attempt : Type 0 where
  pub journalctl : List Bytes → Option (List Read)
  pub replaces : ℕ → Bool
  pub events : List Event
  pub cancelled_by_then : Bool
  pub cancelled_asleep : Bool

-- `running`: the events of an attempt have not brought it to its end.
pub data Status : Type 0 where
  restarting running stopped : Status

-- `cursor` is what the cursor file holds.
pub record Tailer (Value : Type 0) : Type 0 where
  pub cursor : Option Bytes
  pub sink : Sink Value
  pub backoff : ℕ
  pub status : Status

abbrev pub cursor_file : Option Bytes → (ℕ → Bool) → CheckpointFile
cursor_file content replaces = record { content = content; replaces = replaces; attempts = 0 }

-- Behind a run that has ended in a mode.
unfoldable pub on_exit : Mode → Bool → ℕ → ℕ × Status
unfolding next_backoff
on_exit reading stops backoff = (backoff, running)
on_exit (waiting text) stops backoff = (backoff, running)
on_exit (exited cancelled) stops backoff = (backoff, stopped)
on_exit (exited (failed reason)) stops backoff =
    if stops then (backoff, stopped) else (next_backoff backoff max_backoff, restarting)

module _ (crates : Crates) (case : Case) (decode : Bytes → Option (JournalEntry (crates.Value)))
    (filter : ServiceFilter) where
  open crates use {Value}

  abbrev pub run_of : Attempt → Tailer Value → Machine Value
  run_of a t =
      run_journalctl crates case decode filter a.journalctl (cursor_file t.cursor a.replaces) t.sink
        a.events

  unfoldable pub turn : Attempt → Tailer Value → Tailer Value
  unfolding run_journalctl on_exit
  turn a t =
      let m = run_of a t in
      let (backoff, status) =
        on_exit m.mode (a.cancelled_by_then || a.cancelled_asleep) t.backoff in
      record { cursor = m.file.content; sink = m.sink; backoff = backoff; status = status }

  unfoldable pub turns : List Attempt → Tailer Value → Tailer Value
  unfolding turn
  turns [] t = t
  turns (a ∷ later) t = elim t.status [
    | restarting ↦ turns later (turn a t)
    | running ↦ t
    | stopped ↦ t
  ]

  unfoldable pub tail_journal : List Attempt → Option Bytes → Sink Value → Tailer Value
  unfolding turns
  tail_journal attempts cursor sink =
      turns attempts
        (record { cursor = cursor; sink = sink; backoff = first_backoff; status = restarting })
