-- ===== src/Unified/Backfill.antt =====
-- src/logs/unified.rs, src/logs/unified_parse.rs: a backfill from the checkpoint of an earlier phase.
use witness.Prelude.{◌≡◌, true, false, Option, none, some, List, ◌++◌, All}
use witness.Prelude.Str.{Bytes}
use witness.Prelude.Int.{ℤ}
use witness.Std.Case.{Case}
use witness.Std.Trim.{trim}
use witness.Crates.{Crates}
use witness.Sink.{Entry}
use witness.Unified.Parse.{Checkpoint, LogEntry, is_old}
use witness.Unified.Reader.{Read, line, failure, Machine}
use witness.Unified.Attempt.{shipped, position_after}
use witness.Unified.Cycle.{Round, show_arguments, machine, started, run_backfill, run_live}

module _ (crates : Crates) (case : Case) (of_i64 : ℤ → crates.Value)
    (decode : Bytes → Option (LogEntry (crates.Value))) (encode : Checkpoint → Option Bytes) where
  open crates use {Value}

  abbrev pub OldEntry : Checkpoint → Option (LogEntry Value) → Type 0
  OldEntry cp none = Unit
  OldEntry cp (some e) = is_old (some cp) e ≡ true

  abbrev pub NewEntry : Checkpoint → Option (LogEntry Value) → Type 0
  NewEntry cp none = Unit
  NewEntry cp (some e) = is_old (some cp) e ≡ false

  -- A line whose entry is of the checkpoint's boot and not later than it.
  abbrev pub Behind : Checkpoint → Read → Type 0
  Behind cp failure = Unit
  Behind cp (line text) = OldEntry cp (decode (trim text))

  abbrev pub Ahead : Checkpoint → Read → Type 0
  Ahead cp failure = Unit
  Ahead cp (line text) = NewEntry cp (decode (trim text))

  -- What lines are worth to a phase, with or without a position to resume from.
  abbrev pub worth : Option Checkpoint → List Read → List (Entry Value)
  worth dedupe = shipped crates case of_i64 decode encode dedupe

  module _ (from_slice : Bytes → Option Checkpoint) (predicate : Bytes) where
    abbrev begin : List Read → Machine Value → Machine Value
    begin printed m = started crates case of_i64 decode encode from_slice predicate (some printed) m

    abbrev pub lived : Round → Machine Value → Machine Value
    lived = run_live crates case of_i64 decode encode from_slice predicate

    -- The backfill of a round that follows a phase, from a checkpoint.
    abbrev pub resumed : Round → Checkpoint → Machine Value → Machine Value
    resumed round cp m =
        run_backfill crates case of_i64 decode encode from_slice predicate round cp
          (machine (some cp) m.sink m.file)

    -- `log show` replays the lines that a phase has left, behind lines up to its checkpoint.
    abbrev pub Replays : Round → Checkpoint → Option Checkpoint → List Read → Type 0
    Replays round cp initial printed =
        (handled rest : List Read)
        → printed ≡ handled ++ rest
        → position_after crates case of_i64 decode encode none initial handled ≡ some cp
        → (older : List Read) × (fresh : List Read) × (round.log
              (show_arguments predicate cp.wall_timestamp)
            ≡ some (older ++ fresh))
          × All (Behind cp) older
          × All (Ahead cp) fresh
          × (worth none fresh ≡ worth none rest)
