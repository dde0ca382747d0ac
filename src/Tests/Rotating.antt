-- ===== src/Tests/Rotating.antt =====
-- Concrete inputs for rotation and truncation in src/logs/watcher.rs.
use witness.Prelude.{refl, none, some, [], arith}
use witness.Prelude.Str.{codes}
use witness.Tests.{
  crates_example, plain, content, file_example, file_example-Holds, id_example, tailed, full_once,
  fs_example,
}
use witness.Watcher.State.{TailedFile}
use witness.Watcher.Identity.{Metadata}
use witness.Watcher.Lines.{flush_partial}
use witness.Watcher.Poll.{check_and_read}
use witness.Watcher.Polls.{Standing}
use witness.Watcher.Found.{check_and_read_truncated}

abbrev ahead_of_file : TailedFile
ahead_of_file = record tailed { pos = 9; partial = codes "old" }

abbrev meta_example : Metadata
meta_example = record { id = id_example; len = 4; age = some 5 }

check_and_read_truncated_example :
    (let o = check_and_read crates_example plain fs_example (λ n. n) none ahead_of_file full_once in
      Standing crates_example plain content 0 []
        (flush_partial crates_example (record ahead_of_file { pos = 0 }) full_once).1.taken
        o.1
        o.2)
check_and_read_truncated_example =
    check_and_read_truncated crates_example plain fs_example (λ n. n) content file_example
      meta_example ahead_of_file full_once refl refl (omega arith) file_example-Holds
