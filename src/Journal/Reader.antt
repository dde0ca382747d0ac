-- ===== src/Journal/Reader.antt =====
-- src/logs/journal.rs: `run_journalctl` and `handle_entry`, as a machine that moves at each await.
-- What journalctl prints is a list of the answers of `read_line`, at whose end it has exited; an
-- event says which branch of the `select!` that is waited on is taken.
use witness.Prelude.{
  ℕ, ◌+◌, ◌*◌, ◌%◌, Option, none, some, List, [], ◌∷◌, ◌++◌, ltb, leb, if◌then◌else◌, length,
}
use witness.Prelude.Str.{Bytes, codes}
use witness.Std.Case.{Case}
use witness.Crates.{Crates}
use witness.Sink.{Sink}
use witness.Source.{read_trimmed, CheckpointFile, write_checkpoint}
use witness.Journal.{
  ServiceFilter, JournalEntry, ProcessResult, handled, channel_full, parse_failed, process_entry,
}

abbrev pub max_line_len : ℕ
max_line_len = 256 * 1024

abbrev pub cursor_save_interval : ℕ
cursor_save_interval = 100

abbrev u64 : ℕ
u64 = 18446744073709551616

-- An answer of `read_line`: a line with its newline, or a failure (of the pipe, or of the decoding).
pub data Read : Type 0 where
  line : Bytes → Read
  failure : Read

pub data Reason : Type 0 where
  spawn_failed stream_ended read_error : Reason

pub data LoopExit : Type 0 where
  cancelled : LoopExit
  failed : Reason → LoopExit

pub record ReaderState : Type 0 where
  pub last_cursor : Option Bytes
  pub entries_since_save : ℕ
  pub dropped : ℕ

abbrev pub new : Option Bytes → ReaderState
new cursor = record { last_cursor = cursor; entries_since_save = 0; dropped = 0 }

-- Where the task waits: for a line, for room in the channel with a line in hand, or nowhere.
pub data Mode : Type 0 where
  reading : Mode
  waiting : Bytes → Mode
  exited : LoopExit → Mode

pub data Event : Type 0 where
  read elapsed cancel : Event

pub record Machine (Value : Type 0) : Type 0 where
  pub state : ReaderState
  pub sink : Sink Value
  pub file : CheckpointFile
  pub mode : Mode
  pub input : List Read

unfoldable pub save_cursor : Option Bytes → CheckpointFile → CheckpointFile
unfolding write_checkpoint
save_cursor none file = file
save_cursor (some c) file = write_checkpoint file c

unfoldable pub load_cursor : CheckpointFile → Option Bytes
unfolding read_trimmed
load_cursor file = read_trimmed file

unfoldable pub spawn_arguments : Option Bytes → List Bytes
spawn_arguments cursor =
    codes "--output=json"
    ∷ codes "--follow"
    ∷ codes "--no-pager"
    ∷ elim cursor [ some c ↦ codes "--after-cursor=" ++ c | none ↦ codes "--lines=0" ]
    ∷ []

abbrev pub newer : Option Bytes → Option Bytes → Option Bytes
newer none old = old
newer (some c) old = some c

-- An entry was handled: its cursor is the last one, and every hundredth time it is saved.
unfoldable pub advance : Option Bytes → ReaderState → CheckpointFile → ReaderState × CheckpointFile
unfolding save_cursor
advance cursor s file =
    let s' = record s { last_cursor = newer cursor s.last_cursor } in
    if leb cursor_save_interval (s.entries_since_save + 1)
    then (record s' { entries_since_save = 0 }, save_cursor s'.last_cursor file)
    else (record s' { entries_since_save = s.entries_since_save + 1 }, file)

module _ {Value : Type 0} where
  unfoldable pub save_final : Machine Value → LoopExit → Machine Value
  unfolding save_cursor
  save_final m exit = record m { file = save_cursor m.state.last_cursor m.file; mode = exited exit }

  -- Behind one call of `process_entry`.
  unfoldable pub processed : Bytes → ProcessResult × Sink Value → Machine Value → Machine Value
  unfolding advance
  processed text (handled cursor, sink) m =
      let (state, file) = advance cursor m.state m.file in
      record m { state = state; file = file; sink = sink; mode = reading }
  processed text (channel_full, sink) m = record m { sink = sink; mode = waiting text }
  processed text (parse_failed, sink) m = record m {
    state = record (m.state) { dropped = (m.state.dropped + 1) % u64 };
    sink = sink;
    mode = reading;
  }

module _ (crates : Crates) (case : Case) (decode : Bytes → Option (JournalEntry (crates.Value)))
    (filter : ServiceFilter) where
  open crates use {Value}

  -- One round of `handle_entry`.
  unfoldable pub attempt : Bytes → Machine Value → Machine Value
  unfolding process_entry processed
  attempt text m = processed text (process_entry crates case decode text filter m.sink) m

  unfoldable pub read_next : List Read → Machine Value → Machine Value
  unfolding attempt save_final
  read_next [] m = save_final m (failed stream_ended)
  read_next (failure ∷ rest) m = save_final (record m { input = rest }) (failed read_error)
  read_next (line text ∷ rest) m =
      let m' = record m { input = rest } in
      if ltb max_line_len (length text) then m' else attempt text m'

  unfoldable pub step_in : Mode → Event → Machine Value → Machine Value
  unfolding read_next attempt save_final
  step_in reading read m = read_next m.input m
  step_in reading cancel m = save_final m cancelled
  step_in reading elapsed m = m
  step_in (waiting text) elapsed m = attempt text m
  step_in (waiting text) cancel m = save_final m cancelled
  step_in (waiting text) read m = m
  step_in (exited e) event m = m

  unfoldable pub step : Event → Machine Value → Machine Value
  unfolding step_in
  step event m = step_in m.mode event m

  unfoldable pub run : List Event → Machine Value → Machine Value
  unfolding step
  run [] m = m
  run (e ∷ es) m = run es (step e m)

  abbrev pub machine : Option Bytes → CheckpointFile → Sink Value → Mode → List Read → Machine Value
  machine cursor file sink mode input = record {
    state = new cursor;
    sink = sink;
    file = file;
    mode = mode;
    input = input;
  }

  -- `journalctl` is what the command prints for its arguments, or the failure to start it.
  unfoldable pub run_journalctl :
      (List Bytes → Option (List Read)) → CheckpointFile → Sink Value → List Event → Machine Value
  unfolding load_cursor spawn_arguments run
  run_journalctl journalctl file sink events =
      let cursor = load_cursor file in
      elim (journalctl (spawn_arguments cursor)) [
        | none ↦ machine cursor file sink (exited (failed spawn_failed)) []
        | some input ↦ run events (machine cursor file sink reading input)
      ]
