-- ===== src/Unified/Cycle.antt =====
-- src/logs/unified.rs: the phases of `run_cycle`. A round is what the command `log` does in it: what it
-- prints for its arguments, or the failure to start it, and the events while each phase reads.
use witness.Prelude.{true, false, Option, none, some, List, [], ◌∷◌, ◌++◌}
use witness.Prelude.Str.{Bytes, codes}
use witness.Prelude.Int.{ℤ}
use witness.Std.Case.{Case}
use witness.Crates.{Crates}
use witness.Sink.{Sink}
use witness.Source.{CheckpointFile}
use witness.Unified.Parse.{Checkpoint, LogEntry}
use witness.Unified.Reader.{Read, reading, exited, PhaseExit, Event, Machine, new, read_stream}

abbrev pub default_predicate : Bytes
default_predicate =
    codes
      "(messageType == \"error\" OR messageType == \"fault\") OR subsystem == \"com.apple.TCC\" "
    ++ codes
        "OR subsystem == \"com.apple.syspolicy.exec\" OR process == \"sudo\" OR process == \"sshd\" "
    ++ codes "OR process == \"loginwindow\" OR process == \"screensharingd\""

pub data LoopExit : Type 0 where
  cancelled failed : LoopExit

pub record Round : Type 0 where
  pub log : List Bytes → Option (List Read)
  pub backfill_events : List Event
  pub live_events : List Event

unfoldable pub effective_predicate : Option Bytes → Bytes
effective_predicate none = default_predicate
effective_predicate (some p) = p

abbrev pub show_arguments : Bytes → Bytes → List Bytes
show_arguments predicate start_wall =
    codes "show"
    ∷ codes "--style"
    ∷ codes "ndjson"
    ∷ codes "--start"
    ∷ start_wall
    ∷ codes "--predicate"
    ∷ predicate
    ∷ []

abbrev pub stream_arguments : Bytes → List Bytes
stream_arguments predicate =
    codes "stream" ∷ codes "--style" ∷ codes "ndjson" ∷ codes "--predicate" ∷ predicate ∷ []

abbrev pub load_checkpoint : (Bytes → Option Checkpoint) → CheckpointFile → Option Checkpoint
load_checkpoint from_slice file = elim file.content [ none ↦ none | some data' ↦ from_slice data' ]

abbrev pub machine : {V : Type 0} → Option Checkpoint → Sink V → CheckpointFile → Machine V
machine initial sink file = record {
  state = new initial;
  sink = sink;
  file = file;
  mode = reading;
  input = [];
  full_since = none;
}

module _ (crates : Crates) (case : Case) (of_i64 : ℤ → crates.Value)
    (decode : Bytes → Option (LogEntry (crates.Value))) (encode : Checkpoint → Option Bytes)
    (from_slice : Bytes → Option Checkpoint) (predicate : Bytes) where
  open crates use {Value}

  abbrev pub started : Option (List Read) → Machine Value → Machine Value
  started none m = record m { mode = exited PhaseExit.failed }
  started (some input) m = record m { mode = reading; input = input; full_since = none }

  unfoldable pub run_backfill : Round → Checkpoint → Machine Value → Machine Value
  unfolding read_stream
  run_backfill round cp m =
      read_stream crates case of_i64 decode encode (some cp) false round.backfill_events
        (started (round.log (show_arguments predicate cp.wall_timestamp)) m)

  unfoldable pub run_live : Round → Machine Value → Machine Value
  unfolding read_stream
  run_live round m =
      read_stream crates case of_i64 decode encode none true round.live_events
        (started (round.log (stream_arguments predicate)) m)

  -- Only a saved position is backfilled from. A phase that has left by itself leads to the next.
  abbrev pub backfilled : Round → Option Checkpoint → Machine Value → Machine Value
  backfilled round none m = record m { mode = exited PhaseExit.finished }
  backfilled round (some cp) m = run_backfill round cp m

  abbrev pub stopped : Option LoopExit → Machine Value → Option LoopExit × Machine Value
  stopped exit m = (exit, m)

  -- `none`: the rounds are used up, or the last one is still reading.
  unfoldable pub run_cycle :
      List Round → Sink Value → CheckpointFile → Option LoopExit × Machine Value
  unfolding run_backfill run_live
  run_cycle [] sink file = stopped none (machine none sink file)
  run_cycle (round ∷ rounds) sink file =
      let initial = load_checkpoint from_slice file in
      let m = backfilled round initial (machine initial sink file) in
      elim m.mode [
        | exited PhaseExit.cancelled ↦ stopped (some cancelled) m
        | exited PhaseExit.failed ↦ stopped (some failed) m
        | exited _ ↦
            let m' = run_live round m in
            elim m'.mode [
              | exited PhaseExit.cancelled ↦ stopped (some cancelled) m'
              | exited PhaseExit.reconcile ↦ run_cycle rounds m'.sink m'.file
              | exited _ ↦ stopped (some failed) m'
              | _ ↦ stopped none m'
            ]
        | _ ↦ stopped none m
      ]
