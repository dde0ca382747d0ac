-- ===== src/Tests/Tailing.antt =====
-- Concrete inputs for src/logs/watcher.rs and src/logs/text.rs.
use witness.Prelude.{◌≡◌, refl, none, some, [], ◌∷◌, ◌++◌, arith, length, drop}
use witness.Prelude.Str.{codes}
use witness.Tests.{
  crates_example, plain, content, file_example, file_example-Holds, id_example, tailed,
  sink_example, full_once, fs_example,
}
use witness.Assoc.{lookup}
use witness.Crates.{position}
use witness.Sink.{try_log_with_service}
use witness.Utf8.{from_utf8_lossy, is_utf8}
use witness.Text.{Reader, chunk, interrupted, failed, lossy, lossy_lem, read_line, reads}
use witness.Text.Lines.{split_lines}
use witness.Text.Reading.{Answers, read_line_lem, data_of}
use witness.Text.Loop.{reads_lem, reads_of}
use witness.Watcher.State.{TailedFile, FileId}
use witness.Watcher.Lines.{drain_retained, read_lines}
use witness.Watcher.Delivery.{shipped}
use witness.Watcher.Polls.{Standing, read_many, read_many-Standing}
use witness.Watcher.Complete.{read_many_complete, read_lines_live}
use witness.Watcher.Registry.{Registry, register_file}
use witness.Watcher.Index.{IsIndexed}
use witness.Watcher.Register.{register_file-IsIndexed}
use witness.Watcher.Ticking.{poll_tick-IsIndexed}
use witness.Watcher.Schedule.{Main, poll_tick, poll_delay}
use witness.Watcher.Rotated.{Ended, drain_retained-Ended}
use witness.Watcher.Pace.{InPace, poll_tick-InPace}
use witness.Watcher.Offsets.{save_offsets, load_offsets}
use witness.Watcher.Offsets.Saved.{load_offsets-save_offsets, offsets_of, IsSavable}

-- The first poll stops at the second line, which the sink refuses.
stopped : (read_many crates_example plain 1 file_example tailed full_once).0.pos ≡ 2
unfolding read_many read_lines position is_utf8 try_log_with_service
stopped = refl

-- The second poll ships it.
caught_up : (read_many crates_example plain 2 file_example tailed full_once).0.pos ≡ 4
unfolding read_many read_lines position is_utf8 try_log_with_service
caught_up = refl

read_many_complete_example :
    (read_many crates_example plain 2 file_example tailed full_once).1.taken
    ≡ [] ++ shipped crates_example plain [] (split_lines (drop 0 content))
read_many_complete_example =
    read_many_complete crates_example plain content file_example 2 tailed full_once
      file_example-Holds (omega (arith, caught_up))

at_start : Standing crates_example plain content 0 [] [] tailed full_once
at_start = record {
  done = [];
  left = split_lines content;
  lines_are = refl;
  ahead = refl;
  pos_is = refl;
  partial_is = refl;
  taken_is = refl;
}

read_many-Standing_example :
    (let o = read_many crates_example plain 1 file_example tailed full_once in
      Standing crates_example plain content 0 [] [] o.0 o.1)
read_many-Standing_example =
    read_many-Standing crates_example plain content [] 0 [] file_example file_example-Holds 1 tailed
      full_once at_start

two_lines : length (split_lines (drop 0 content)) ≡ 2
unfolding split_lines
two_lines = refl

read_lines_live_example :
    (let o = read_lines crates_example plain file_example tailed sink_example in
      (o.1.pos ≡ 4)
      × (o.2.taken ≡ [] ++ shipped crates_example plain [] (split_lines (drop 0 content))))
read_lines_live_example =
    read_lines_live crates_example plain content file_example tailed sink_example file_example-Holds
      tt (omega (arith, two_lines)) (omega arith)

abbrev broken_reader : Reader
broken_reader = chunk (codes "ab") ∷ interrupted ∷ chunk (codes "c\nd") ∷ failed ∷ []

read_line_lem_example :
    Answers crates_example 0 broken_reader
      (codes "x")
      (read_line crates_example broken_reader (codes "x"))
read_line_lem_example = read_line_lem crates_example broken_reader (codes "x")

abbrev whole_reader : Reader
whole_reader = chunk (codes "ab") ∷ interrupted ∷ chunk (codes "c\nd") ∷ []

reads_lem_example :
    reads crates_example whole_reader ≡ reads_of (split_lines (data_of whole_reader))
reads_lem_example = reads_lem crates_example whole_reader tt

lossy_lem_example : lossy crates_example (b'a' ∷ 0xFF ∷ []) ≡ from_utf8_lossy (b'a' ∷ 0xFF ∷ [])
lossy_lem_example = lossy_lem crates_example (b'a' ∷ 0xFF ∷ [])

abbrev no_files : Registry
no_files = record { files = []; index = [] }

no_files-IsIndexed : IsIndexed no_files
unfolding lookup
no_files-IsIndexed = record {
  keyed = λ id t e. absurd (none_ne_file t e);
  led = λ p id e. absurd (none_ne_id id e);
}
  where
    none_ne_file : (t : TailedFile) → none ≡ some t → ⊥
    none_ne_file t e = cc

    none_ne_id : (id : FileId) → none ≡ some id → ⊥
    none_ne_id id e = cc

register_file-IsIndexed_example :
    IsIndexed (register_file fs_example [] none (codes "/var/log/app.log") no_files)
register_file-IsIndexed_example =
    register_file-IsIndexed fs_example [] none (codes "/var/log/app.log") no_files
      no_files-IsIndexed

abbrev main_example : Main crates_example plain
main_example = record {
  registry = register_file fs_example [] (some 0) (codes "/var/log/app.log") no_files;
  sink = sink_example;
  interval = 250;
  pending = none;
}

main_example-IsIndexed : IsIndexed main_example.registry
main_example-IsIndexed =
    register_file-IsIndexed fs_example [] (some 0) (codes "/var/log/app.log") no_files
      no_files-IsIndexed

poll_tick-IsIndexed_example :
    IsIndexed (poll_tick crates_example plain fs_example (λ n. n) 7 8 none main_example).registry
poll_tick-IsIndexed_example =
    poll_tick-IsIndexed crates_example plain fs_example (λ n. n) 7 8 none main_example
      main_example-IsIndexed

poll_tick-InPace_example :
    (let o = poll_tick crates_example plain fs_example (λ n. n) 7 8 none main_example in
      InPace o.interval × InPace (poll_delay o.interval o.pending))
poll_tick-InPace_example =
    poll_tick-InPace crates_example plain fs_example (λ n. n) 7 8 none main_example
      (omega arith, omega arith)

tailed-IsSavable : IsSavable tailed
unfolding is_utf8
tailed-IsSavable = record {
  utf8 = refl;
  no_tab = refl;
  no_feed = refl;
  no_return = refl;
  pos_fits = omega arith;
  dev_fits = omega arith;
  ino_fits = omega arith;
}

load_offsets-save_offsets_example :
    load_offsets (some (save_offsets ((id_example, tailed) ∷ [])))
    ≡ offsets_of ((id_example, tailed) ∷ []) []
load_offsets-save_offsets_example =
    load_offsets-save_offsets ((id_example, tailed) ∷ []) (tailed-IsSavable, tt)

-- A file that was rotated away.
abbrev rotated_file : TailedFile
rotated_file = record tailed { retained_fd = some file_example }

drain_retained-Ended_example :
    (let o = drain_retained crates_example plain rotated_file full_once in
      Ended crates_example plain content 0 [] [] file_example o.1 o.2)
drain_retained-Ended_example =
    drain_retained-Ended crates_example plain content 0 [] [] file_example rotated_file full_once
      file_example-Holds refl
      (record {
        done = [];
        left = split_lines content;
        lines_are = refl;
        ahead = refl;
        pos_is = refl;
        partial_is = refl;
        taken_is = refl;
      })
