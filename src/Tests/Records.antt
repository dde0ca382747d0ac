-- ===== src/Tests/Records.antt =====
-- Concrete inputs for src/logs/multiline.rs and src/sink.rs.
use witness.Prelude.{ℕ, ◌-◌, ◌≡◌, refl, true, not, none, some, leb, [], ◌∷◌}
use witness.Prelude.Str.{codes, starts_with}
use witness.Tests.{crates_example, plain, file_example, tailed, full, full_once}
use witness.Sink.{try_log_with_service}
use witness.Utf8.{is_utf8}
use witness.Text.{lossy}
use witness.Watcher.State.{TailedFile, Aggregator}
use witness.Multiline.Record.{MultilineOpts, refused, commit_line}
use witness.Multiline.Offsets.{IsSound}
use witness.Multiline.Invariant.{live, truncate, expire, finish, operate_all, operate_all-IsSound}
use witness.Multiline.Loop.{waited_for, flush_if_expired}
use witness.Multiline.Due.{flush_if_expired_lem}
use witness.Multiline.Refusal.{Unchanged, Shipped, commit_line_refused}

-- A record starts at a line that is not indented.
abbrev opts_example : MultilineOpts
opts_example = record {
  pattern = λ line. not (starts_with (codes " ") line);
  timeout = 1000;
  max_bytes = 64;
}

abbrev agg_example : Aggregator
agg_example = record {
  joined = codes "error";
  record_bytes = 6;
  read_ahead = 6;
  partial_bytes = 0;
  last_append = some 5;
}

abbrev pending : TailedFile
pending = record tailed { agg = some agg_example }

operate_all-IsSound_example :
    IsSound opts_example
      (operate_all crates_example plain opts_example
        (live (λ n. n) file_example ∷ expire 9 10 ∷ truncate ∷ finish ∷ [])
        tailed
        full_once).0
operate_all-IsSound_example =
    operate_all-IsSound crates_example plain opts_example
      (live (λ n. n) file_example ∷ expire 9 10 ∷ truncate ∷ finish ∷ []) tailed full_once tt

is_refused :
    (commit_line crates_example plain opts_example pending (codes "next") 5 7 full).0 ≡ refused
unfolding commit_line is_utf8 starts_with try_log_with_service lossy
is_refused = refl

commit_line_refused_example :
    (let o = commit_line crates_example plain opts_example pending (codes "next") 5 7 full in
      Unchanged crates_example plain pending full o.1 o.2)
commit_line_refused_example =
    commit_line_refused crates_example plain opts_example pending (codes "next") 5 7 full is_refused

flush_if_expired_lem_example :
    (let o = flush_if_expired crates_example plain opts_example 1005 1006 pending full_once in
      (o.0 ≡ none
        → (leb opts_example.timeout (waited_for 1005 agg_example) ≡ true)
          × Shipped crates_example plain agg_example pending full_once o.1 o.2)
      × ((d : ℕ)
          → o.0 ≡ some d
          → (d ≡ opts_example.timeout - waited_for 1006 agg_example)
            × Unchanged crates_example plain pending full_once o.1 o.2))
flush_if_expired_lem_example =
    flush_if_expired_lem crates_example plain opts_example 1005 1006 agg_example pending full_once
      refl refl
