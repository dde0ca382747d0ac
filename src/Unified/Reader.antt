-- ===== src/Unified/Reader.antt =====
-- src/logs/unified.rs: `read_stream` and `ship_line`, as a machine that moves at each await. What
-- `log` prints is a list of the answers of `read_line`, at whose end it has exited; an event says which
-- branch of the `select!` that is waited on is taken, and at what time.
use witness.Prelude.{
  ℕ, ◌+◌, ◌-◌, ◌*◌, ◌%◌, Bool, true, false, not, ◌||◌, Option, none, some, List, [], ◌∷◌, ltb, leb,
  if◌then◌else◌, option_or, length,
}
use witness.Prelude.Str.{Bytes, codes, starts_with}
use witness.Prelude.Int.{ℤ}
use witness.Std.Case.{Case}
use witness.Std.Trim.{trim_start}
use witness.Crates.{Crates}
use witness.Sink.{Sink}
use witness.Source.{CheckpointFile, write_checkpoint}
use witness.Unified.Parse.{
  Checkpoint, LogEntry, UnifiedResult, handled, channel_full, parse_failed, process_entry,
}

abbrev pub max_line_len : ℕ
max_line_len = 256 * 1024

abbrev pub cursor_save_interval : ℕ
cursor_save_interval = 100

-- Times are milliseconds.
abbrev pub backpressure_reconcile : ℕ
backpressure_reconcile = 5000

abbrev u64 : ℕ
u64 = 18446744073709551616

pub data Read : Type 0 where
  line : Bytes → Read
  failure : Read

pub data PhaseExit : Type 0 where
  finished cancelled failed reconcile : PhaseExit

pub data RecordOutcome : Type 0 where
  advanced full : RecordOutcome

pub record ReaderState : Type 0 where
  pub last : Option Checkpoint
  pub since_save : ℕ
  pub dropped : ℕ

abbrev pub new : Option Checkpoint → ReaderState
new initial = record { last = initial; since_save = 0; dropped = 0 }

-- Where the task waits: for a line, for room in the channel with a line in hand, or nowhere.
pub data Mode : Type 0 where
  reading : Mode
  waiting : Bytes → Mode
  exited : PhaseExit → Mode

pub data Event : Type 0 where
  read elapsed : ℕ → Event
  cancel : Event

pub record Machine (Value : Type 0) : Type 0 where
  pub state : ReaderState
  pub sink : Sink Value
  pub file : CheckpointFile
  pub mode : Mode
  pub input : List Read
  pub full_since : Option ℕ

unfoldable pub reconcile_due : Option ℕ → ℕ → ℕ → Bool
reconcile_due none now threshold = false
reconcile_due (some start) now threshold = leb threshold (now - start)

-- The banner and blank lines of `log stream` are no entries.
unfoldable pub is_passed_over : Bytes → Bool
unfolding trim_start starts_with
is_passed_over text =
    ltb max_line_len (length text) || not (starts_with (codes "{") (trim_start text))

-- serde_json writes a checkpoint, or fails.
module _ (encode : Checkpoint → Option Bytes) where
  abbrev pub write_encoded : Option Bytes → CheckpointFile → CheckpointFile
  write_encoded none file = file
  write_encoded (some bytes) file = write_checkpoint file bytes

  unfoldable pub save_checkpoint : Option Checkpoint → CheckpointFile → CheckpointFile
  unfolding write_checkpoint
  save_checkpoint none file = file
  save_checkpoint (some cp) file = write_encoded (encode cp) file

  -- `ReaderState::record`.
  unfoldable pub record_result :
      UnifiedResult → ReaderState → CheckpointFile → RecordOutcome × ReaderState × CheckpointFile
  unfolding save_checkpoint
  record_result (handled (some cp)) s file =
      let s' = record s { last = some cp } in
      if leb cursor_save_interval (s.since_save + 1)
      then (advanced, record s' { since_save = 0 }, save_checkpoint (some cp) file)
      else (advanced, record s' { since_save = s.since_save + 1 }, file)
  record_result (handled none) s file = (advanced, s, file)
  record_result parse_failed s file = (advanced, record s { dropped = (s.dropped + 1) % u64 }, file)
  record_result channel_full s file = (full, s, file)

  module _ {Value : Type 0} where
    unfoldable pub save_final : Machine Value → PhaseExit → Machine Value
    unfolding save_checkpoint
    save_final m exit = record m { file = save_checkpoint m.state.last m.file; mode = exited exit }

    -- The channel is full: in the live phase, not for longer than the threshold.
    unfoldable pub stalled : Bool → ℕ → Bytes → Machine Value → Machine Value
    unfolding save_final reconcile_due
    stalled false now text m = record m { mode = waiting text }
    stalled true now text m =
        let start = option_or m.full_since now in
        let m' = record m { full_since = some start; mode = waiting text } in
        if reconcile_due (some start) now backpressure_reconcile
        then save_final m' reconcile
        else m'

    abbrev pub recorded :
        Bool
        → ℕ
        → Bytes
        → RecordOutcome × ReaderState × CheckpointFile
        → Machine Value
        → Machine Value
    recorded live now text (advanced, s, file) m = record m {
      state = s;
      file = file;
      full_since = none;
      mode = reading;
    }
    recorded live now text (full, s, file) m =
        stalled live now text (record m { state = s; file = file })

    unfoldable pub processed :
        Bool → ℕ → Bytes → UnifiedResult × Sink Value → Machine Value → Machine Value
    unfolding record_result stalled
    processed live now text (result, sink) m =
        recorded live now text (record_result result m.state m.file) (record m { sink = sink })

module _ (crates : Crates) (case : Case) (of_i64 : ℤ → crates.Value)
    (decode : Bytes → Option (LogEntry (crates.Value))) (encode : Checkpoint → Option Bytes)
    (dedupe : Option Checkpoint) (live : Bool) where
  open crates use {Value}

  -- One round of `ship_line`.
  unfoldable pub attempt : ℕ → Bytes → Machine Value → Machine Value
  unfolding process_entry processed
  attempt now text m =
      processed encode live now text (process_entry crates case of_i64 decode text dedupe m.sink) m

  unfoldable pub read_next : ℕ → List Read → Machine Value → Machine Value
  unfolding attempt save_final is_passed_over
  read_next now [] m = save_final encode m finished
  read_next now (failure ∷ rest) m = save_final encode (record m { input = rest }) failed
  read_next now (line text ∷ rest) m =
      let m' = record m { input = rest } in if is_passed_over text then m' else attempt now text m'

  unfoldable pub step_in : Mode → Event → Machine Value → Machine Value
  unfolding read_next attempt save_final
  step_in reading (read now) m = read_next now m.input m
  step_in reading cancel m = save_final encode m cancelled
  step_in reading (elapsed now) m = m
  step_in (waiting text) (elapsed now) m = attempt now text m
  step_in (waiting text) cancel m = save_final encode m cancelled
  step_in (waiting text) (read now) m = m
  step_in (exited e) event m = m

  unfoldable pub step : Event → Machine Value → Machine Value
  unfolding step_in
  step event m = step_in m.mode event m

  unfoldable pub read_stream : List Event → Machine Value → Machine Value
  unfolding step
  read_stream [] m = m
  read_stream (e ∷ es) m = read_stream es (step e m)
