-- ===== src/Tests/Unified.antt =====
-- Concrete inputs for src/logs/unified.rs and src/logs/unified_parse.rs.
use witness.Prelude.{
  ℕ, ◌≡◌, refl, true, not, ◌||◌, Option, none, some, List, [], ◌∷◌, ◌==◌, if◌then◌else◌,
}
use witness.Prelude.Str.{Bytes, codes, eqb}
use witness.Prelude.Int.{ℤ}
use witness.Sink.{Entry, Sink, live, try_log_with_service}
use witness.Source.{CheckpointFile}
use witness.Unified.Parse.{Checkpoint, LogEntry}
use witness.Unified.Reader.{
  Read, line, read, elapsed, reconcile, exited, Machine, step, attempt, read_stream,
}
use witness.Unified.Attempt.{position_after}
use witness.Unified.Delivery.{Delivered, read_stream-Delivered}
use witness.Unified.Backfill.{worth, lived, resumed}
use witness.Unified.Cycle.{Round, machine, default_predicate, run_live}
use witness.Tests.{case_example, Json, word, crates_example}

abbrev of_i64_example : ℤ → Json
of_i64_example n = word []

-- The first line is the entry at 1, and any other one at 2.
abbrev decode_example : Bytes → Option (LogEntry Json)
decode_example s = some (record {
  event_type = some (codes "logEvent");
  message_type = none;
  event_message = some s;
  subsystem = some (codes "app");
  category = none;
  process_image_path = none;
  process_id = none;
  mach_timestamp = some (if eqb s (codes "{a") then 1 else 2);
  boot_uuid = some (codes "boot");
  wall_timestamp = some s;
  extras = [];
})

abbrev encode_example : Checkpoint → Option Bytes
encode_example cp = some cp.wall_timestamp

abbrev from_slice_example : Bytes → Option Checkpoint
from_slice_example s = none

abbrev printed_example : List Read
printed_example = line (codes "{a\n") ∷ line (codes "{b\n") ∷ []

-- The channel is full at the second entry, until the live phase gives up.
abbrev live_round : Round
live_round = record {
  log = λ args. some printed_example;
  backfill_events = [];
  live_events = read 0 ∷ read 0 ∷ elapsed 6000 ∷ [];
}

abbrev next_round : Round
next_round = record {
  log = λ args. some printed_example;
  backfill_events = read 7000 ∷ read 7000 ∷ read 7000 ∷ [];
  live_events = [];
}

abbrev file_example : CheckpointFile
file_example = record { content = none; replaces = λ n. true; attempts = 0 }

abbrev sink_stalled : Sink Json
sink_stalled = record { inner = live (λ n. not (n == 1 || n == 2)) 0; tags = []; taken = [] }

abbrev started_example : Machine Json
started_example = machine none sink_stalled file_example

abbrev checkpoint_example : Checkpoint
checkpoint_example = record {
  boot_uuid = codes "boot";
  mach_timestamp = 1;
  wall_timestamp = codes "{a";
}

abbrev lived_example : Machine Json
lived_example =
    lived crates_example case_example of_i64_example decode_example encode_example
      from_slice_example default_predicate live_round started_example

abbrev resumed_example : Machine Json
resumed_example =
    resumed crates_example case_example of_i64_example decode_example encode_example
      from_slice_example default_predicate next_round checkpoint_example lived_example

gives_up : lived_example.mode ≡ exited reconcile
unfolding run_live step attempt try_log_with_service
gives_up = refl

abbrev worth_example : List Read → List (Entry Json)
worth_example = worth crates_example case_example of_i64_example decode_example encode_example none

abbrev position_example : List Read → Option Checkpoint
position_example =
    position_after crates_example case_example of_i64_example decode_example encode_example none
      none

abbrev mach_of : Option Checkpoint → ℕ
mach_of none = 0
mach_of (some cp) = cp.mach_timestamp

abbrev reading_example : Machine Json
reading_example = record started_example { input = printed_example }

read_stream-Delivered_example :
    Delivered crates_example case_example of_i64_example decode_example encode_example none
      printed_example [] none
      (read_stream crates_example case_example of_i64_example decode_example encode_example none
        true
        (read 0 ∷ read 0 ∷ elapsed 6000 ∷ [])
        reading_example)
read_stream-Delivered_example =
    read_stream-Delivered crates_example case_example of_i64_example decode_example encode_example
      none printed_example [] none true (read 0 ∷ read 0 ∷ elapsed 6000 ∷ []) reading_example
      ([], printed_example, refl, refl, refl, refl)
