-- ===== src/Tests/Journal.antt =====
-- Concrete inputs for src/logs/journal.rs.
use mathlib.Core.Bool.{false≢true}
use witness.Prelude.{
  ◌≡◌, refl, sym, ◌∙◌, subst, ◌≢◌, inr, true, false, Option, none, some, List, [], ◌∷◌, ◌++◌, map,
  append-nil, take, drop, All, take-append-drop,
}
use witness.Prelude.Str.{Bytes, codes, eqb, eqb_iff}
use witness.Std.Trim.{trim}
use witness.Source.{CheckpointFile}
use witness.Journal.{ServiceFilter, JournalEntry, process_entry}
use witness.Journal.Reader.{
  step, attempt, save_cursor, Read, line, Event, read, elapsed, cancel, cancelled, exited, Machine,
  load_cursor, spawn_arguments, run_journalctl,
}
use witness.Journal.Attempt.{shipped}
use witness.Journal.Cursor.{after, Distinct, HasCursor, EveryCursor}
use witness.Journal.Resume.{restart_covers}
use witness.Journal.Tail.{Attempt, running, stopped, Tailer, tail_journal}
use witness.Journal.Restarts.{Readable, Follows, tail_journal_exact}
use witness.Crates.{positions}
use witness.Sink.{Entry, try_log_with_service}
use witness.Tests.{case_example, Json, crates_example, full_once}

-- A line whose message is its cursor.
abbrev decode_example : Bytes → Option (JournalEntry Json)
decode_example s = some (record {
  message = some s;
  syslog_identifier = some (codes "app");
  comm = none;
  priority = none;
  cursor = some s;
  extras = [];
})

abbrev filter_example : ServiceFilter
filter_example = record { include = []; exclude = [] }

abbrev journal_example : List Read
journal_example =
    line (codes "a\n") ∷ line (codes "b\n") ∷ line (codes "c\n") ∷ line (codes "d\n") ∷ []

abbrev after_example : Bytes → List Read
after_example c = after crates_example case_example decode_example filter_example c journal_example

abbrev argument : List Bytes → Bytes
argument (x ∷ y ∷ z ∷ cursor ∷ rest) = drop 15 cursor
argument _ = []

abbrev journalctl_example : List Bytes → Option (List Read)
journalctl_example args = some (after_example (argument args))

abbrev file_after_a : CheckpointFile
file_after_a = record { content = some (codes "a"); replaces = λ n. true; attempts = 0 }

loads_example : load_cursor file_after_a ≡ some (codes "a")
unfolding load_cursor
loads_example = refl

differ : (s t : Bytes) → eqb s t ≡ false → (c : Bytes) → some s ≡ some c → some t ≡ some c → ⊥
differ s t h c e f = let same : s ≡ t = cc in absurd (false≢true (sym h ∙ (eqb_iff s t).1 same))

cursors_differ : Distinct crates_example case_example decode_example filter_example journal_example
unfolding trim eqb
cursors_differ = (
  (
    differ (codes "a") (codes "b") refl,
    (differ (codes "a") (codes "c") refl, (differ (codes "a") (codes "d") refl, tt)),
  ),
  (
    (differ (codes "b") (codes "c") refl, (differ (codes "b") (codes "d") refl, tt)),
    ((differ (codes "c") (codes "d") refl, tt), (tt, tt)),
  ),
)

cursors_present :
    All (HasCursor crates_example case_example decode_example filter_example) journal_example
cursors_present = ((λ e. cc), ((λ e. cc), ((λ e. cc), ((λ e. cc), tt))))

-- The channel is full at the second entry; the task is cancelled while it waits for the fourth.
abbrev events_example : List Event
events_example = read ∷ read ∷ elapsed ∷ cancel ∷ []

abbrev worth_example : List Read → List (Entry Json)
worth_example = shipped crates_example case_example decode_example filter_example

abbrev run_example : Machine Json
run_example =
    run_journalctl crates_example case_example decode_example filter_example journalctl_example
      file_after_a full_once events_example

ships_two : map (λ e. e.message) run_example.sink.taken ≡ codes "b" ∷ codes "c" ∷ []
unfolding run_journalctl step attempt process_entry eqb try_log_with_service save_cursor positions
ships_two = refl

leaves : run_example.mode ≡ exited cancelled
unfolding run_journalctl step attempt process_entry eqb try_log_with_service save_cursor positions
leaves = refl

prints_example :
    journalctl_example (spawn_arguments (some (codes "a"))) ≡ some (after_example (codes "a"))
unfolding spawn_arguments
prints_example = refl

restart_covers_example :
    (kept : List Read) × (twice : List Read) × (rest : List Read) × (c' : Bytes) × (after_example
        (codes "a")
      ≡ (kept ++ twice) ++ rest)
    × (run_example.sink.taken ≡ full_once.taken ++ worth_example (kept ++ twice))
    × (run_example.file.content ≡ some c')
    × (worth_example (after_example c') ≡ worth_example (twice ++ rest))
restart_covers_example =
    restart_covers crates_example case_example decode_example filter_example journal_example
      cursors_differ cursors_present journalctl_example file_after_a (codes "a") refl loads_example
      (after_example (codes "a")) [] prints_example (sym (append-nil (after_example (codes "a"))))
      full_once events_example

reads_back : (s : Bytes) → Readable s → (d : Bytes) → some s ≡ some d → Readable d
reads_back s r d e = let same : s ≡ d = cc in subst Readable same r

cursors_read_back :
    All
      (EveryCursor crates_example case_example decode_example filter_example Readable)
      journal_example
unfolding trim load_cursor
cursors_read_back = (
  reads_back (codes "a") (λ r. refl),
  (
    reads_back (codes "b") (λ r. refl),
    (reads_back (codes "c") (λ r. refl), (reads_back (codes "d") (λ r. refl), tt)),
  ),
)

-- journalctl prints two entries and fails; started again, it prints the next one.
abbrev first_attempt : Attempt
first_attempt = record {
  journalctl = λ args. some (take 2 (after_example (argument args)));
  replaces = λ n. true;
  events = read ∷ read ∷ elapsed ∷ read ∷ [];
  cancelled_by_then = false;
  cancelled_asleep = false;
}

abbrev second_attempt : Attempt
second_attempt = record {
  journalctl = journalctl_example;
  replaces = λ n. true;
  events = read ∷ cancel ∷ [];
  cancelled_by_then = true;
  cancelled_asleep = false;
}

abbrev attempts_example : List Attempt
attempts_example = first_attempt ∷ second_attempt ∷ []

abbrev FollowsExample : Attempt → Type 0
FollowsExample a =
    Follows crates_example case_example decode_example filter_example journal_example cursors_differ
      cursors_present cursors_read_back a

first_attempt-Follows : FollowsExample first_attempt
unfolding spawn_arguments
first_attempt-Follows d = inr (
  take 2 (after_example d),
  drop 2 (after_example d),
  refl,
  sym (take-append-drop 2 (after_example d)),
)

second_attempt-Follows : FollowsExample second_attempt
unfolding spawn_arguments
second_attempt-Follows d = inr (after_example d, [], refl, sym (append-nil (after_example d)))

abbrev tailer_example : Tailer Json
tailer_example =
    tail_journal crates_example case_example decode_example filter_example attempts_example
      (some (codes "a")) full_once

stops : tailer_example.status ≢ running
unfolding tail_journal run_journalctl step attempt process_entry eqb try_log_with_service
    save_cursor positions
stops e = stopped_ne_running e
  where
    stopped_ne_running : stopped ≡ running → ⊥
    stopped_ne_running e = cc

a-Readable : Readable (codes "a")
unfolding load_cursor
a-Readable r = refl

tail_journal_exact_example :
    (c' : Bytes) × (tailer_example.cursor ≡ some c')
    × (tailer_example.sink.taken ++ worth_example (after_example c')
        ≡ full_once.taken ++ worth_example (after_example (codes "a")))
tail_journal_exact_example =
    tail_journal_exact crates_example case_example decode_example filter_example journal_example
      cursors_differ cursors_present cursors_read_back attempts_example (codes "a") full_once
      ((first_attempt-Follows, λ n. refl), ((second_attempt-Follows, λ n. refl), tt)) a-Readable
      stops
