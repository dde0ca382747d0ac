-- ===== src/Metrics/Process/Largest.antt =====
-- src/metrics/linux/process.rs: which processes are reported.
use witness.Prelude.{ℕ, ◌≡◌, refl, List, [], ◌++◌, map, if◌then◌else◌}
use mathlib.Core.List.Perm
use witness.Metrics.{Floats}
use witness.Metrics.Top.{sort_descending, sort_descending-perm, top, IsTop, top-IsTop}
use witness.Metrics.Process.{ProcSnapshot, delta_key, rss_key, cpu_metric, rss_metric, report}

IsTop-sorted :
    (n : ℕ) (snapshots out : List ProcSnapshot)
    → IsTop rss_key n (sort_descending delta_key snapshots) out
    → IsTop rss_key n snapshots out
IsTop-sorted n snapshots out (others, perm, d, above, over, short, full) = (
  others,
  Perm.trans (sort_descending-perm delta_key snapshots) perm,
  d,
  above,
  over,
  short,
  full,
)

module _ (floats : Floats) where
  open floats use {F64}

  -- The processor gauges are those of the processes that ran most, largest first, and the memory
  -- gauges those of the processes that have most pages: up to `top_n` of each, none of them at 0, and no
  -- process that is left out exceeds one that is reported. Without elapsed time there are no processor
  -- gauges.
  pub report-IsTop :
      (top_n : ℕ) (clk_tck elapsed : F64) (snapshots : List ProcSnapshot)
      → (busy : List ProcSnapshot) × (large : List ProcSnapshot) × (report floats top_n clk_tck
            elapsed snapshots
          ≡ (if floats.less (floats.of_u64 0) elapsed
              then map (cpu_metric floats clk_tck elapsed) busy
              else [])
            ++ map (rss_metric floats) large)
        × IsTop delta_key top_n snapshots busy
        × IsTop rss_key top_n snapshots large
  unfolding report top
  report-IsTop top_n clk_tck elapsed snapshots =
      let by_cpu = sort_descending delta_key snapshots in
      let large = top rss_key top_n by_cpu in
      (
        top delta_key top_n snapshots,
        large,
        refl,
        top-IsTop delta_key top_n snapshots,
        IsTop-sorted top_n snapshots large (top-IsTop rss_key top_n by_cpu),
      )
