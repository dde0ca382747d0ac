-- ===== src/Watcher/Pace.antt =====
-- src/logs/watcher.rs: how long the main loop waits.
use witness.Prelude.{ℕ, ◌≤◌, Option, none, some, arith}
use witness.Crates.{Crates}
use witness.Structured.Classify.{FileParseOpts}
use witness.Multiline.Record.{MultilineOpts}
use witness.Watcher.Identity.{FileSystem}
use witness.Watcher.Poll.{poll_all}
use witness.Watcher.Schedule.{
  poll_catchup_ms, poll_max_ms, poll_delay, next_interval, Main, poll_tick, flush_expired_records,
}

abbrev pub InPace : ℕ → Type 0
InPace ms = (poll_catchup_ms ≤ ms) × (ms ≤ poll_max_ms)

next_interval-InPace : (total i : ℕ) → InPace i → InPace (next_interval total i)
unfolding next_interval
next_interval-InPace total i (lo, hi) = ground arith

poll_delay-InPace : (i : ℕ) (near : Option ℕ) → InPace i → InPace (poll_delay i near)
unfolding poll_delay
poll_delay-InPace i none h = h
poll_delay-InPace i (some n) (lo, hi) = (omega arith, omega arith)

module _ (crates : Crates) (opts : FileParseOpts) where
  -- The interval stays between 50 ms and 2 s whatever a tick finds, and so does the delay before the
  -- next tick, however soon a record is due.
  pub poll_tick-InPace :
      (fs : FileSystem) (clock : ℕ → ℕ) (now later : ℕ) (ml : Option MultilineOpts)
      (s : Main crates opts)
      → InPace s.interval
      → (let o = poll_tick crates opts fs clock now later ml s in
          InPace o.interval × InPace (poll_delay o.interval o.pending))
  unfolding poll_tick
  poll_tick-InPace fs clock now later ml s h =
      let polled =
        poll_all crates opts fs clock ml
          (record { registry = s.registry; sink = s.sink; total_bytes = 0 }) in
      let paced = next_interval-InPace polled.total_bytes s.interval h in
      (
        paced,
        poll_delay-InPace _
            (flush_expired_records crates opts ml now later polled.registry.files polled.sink).0
            paced,
      )
