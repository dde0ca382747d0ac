-- ===== src/Tests/Containers.antt =====
-- Concrete inputs for src/metrics/linux/container.rs and src/sink.rs.
use mathlib.Core.List.Memᴰ.{head, tail}
use witness.Prelude.{
  ℕ, ◌≤◌, ◌≡◌, refl, true, false, Option, none, some, List, [], ◌∷◌, ◌++◌, map, if◌then◌else◌,
  is_some, any, All,
}
use witness.Prelude.Str.{Bytes, codes, eqb}
use witness.Assoc.{bytes_key, lookup}
use witness.Std.Scan.{find}
use witness.Metrics.{Procfs, gauge, Metric}
use witness.Metrics.Container.{Directories, discover_containers}
use witness.Metrics.Container.Collect.{ContainerCollector, known, collect}
use witness.Metrics.Container.Deltas.{DistinctIds, Newest, reports, collect_lem}
use witness.Metrics.Space.{
  Operation, reads, retains, finishes, timed_out, answered, operate_all, with_reader, outstanding,
}
use witness.Metrics.Space.Outstanding.{outstanding-operate_all}
use witness.Sink.{Sink, live}
use witness.Sink.Labels.{Label}
use witness.Sink.Tags.{leak_tags, leak_tags_again}
use witness.Sink.Metrics.{send, send_lem}
use witness.Tests.{Json}
use witness.Tests.Collecting.{floats_example}

abbrev id_of_64 : Bytes
id_of_64 = codes "0123456789abcdef0123456789abcdef0123456789abcdef0123456789abcdef"

abbrev read_dir_example : Bytes → Option (List Bytes)
read_dir_example dir =
    if eqb dir (codes "/sys/fs/cgroup/system.slice")
    then some (codes "cron.service" ∷ (codes "docker-" ++ id_of_64 ++ codes ".scope") ∷ [])
    else none

abbrev dirs_example : Directories
dirs_example = record { read_dir = read_dir_example; is_dir = λ p. false }

abbrev procfs_example : Procfs
procfs_example path =
    if is_some (find (codes "cpu.stat") path)
    then some (codes "usage_usec 70\nuser_usec 50\nsystem_usec 20\n")
    else none

-- The counters of a container that runs, and of one that has gone.
abbrev collector_example : ContainerCollector
collector_example = record {
  prev_cpu =
      (codes "0123456789ab", record { usage_usec = 60; user_usec = 45; system_usec = 15 })
      ∷ (codes "ffffffffffff", record { usage_usec = 5; user_usec = 5; system_usec = 0 })
      ∷ [];
  containers = [];
  tick_count = 8;
}

abbrev no_floats : Bytes → Option ℕ
no_floats s = none

one_container :
    map
      (λ c. c.short_id)
      (known floats_example no_floats procfs_example dirs_example collector_example)
    ≡ codes "0123456789ab" ∷ []
unfolding discover_containers eqb
one_container = refl

ids_differ :
    DistinctIds (known floats_example no_floats procfs_example dirs_example collector_example)
unfolding discover_containers eqb
ids_differ = (tt, tt)

collect_lem_example :
    (let o = collect floats_example no_floats procfs_example dirs_example collector_example in
      let containers =
        known floats_example no_floats procfs_example dirs_example collector_example in
      (o.0 ≡ reports floats_example no_floats procfs_example collector_example.prev_cpu containers)
      × All
          (Newest floats_example no_floats procfs_example collector_example.prev_cpu o.1.prev_cpu)
          containers
      × ((id : Bytes)
          → any (λ c. eqb c.short_id id) containers ≡ false
          → lookup id o.1.prev_cpu ≡ none))
collect_lem_example =
    collect_lem floats_example no_floats procfs_example dirs_example collector_example ids_differ

abbrev tagged_sink : Sink Json
tagged_sink = record {
  inner = live (λ n. true) 0;
  tags = (codes "env", codes "prod") ∷ [];
  taken = [];
}

abbrev metric_example : Metric ℕ
metric_example = record {
  kind = gauge;
  name = codes "system.load.1";
  value = 3;
  labels = (codes "cpu", codes "0") ∷ [];
}

send_lem_example :
    send (λ v. []) metric_example tagged_sink
    ≡ some (
      record {
        given = record metric_example { labels = tagged_sink.tags ++ metric_example.labels } ∷ [];
        printed = [];
      },
      tagged_sink,
    )
send_lem_example = send_lem (λ v. []) metric_example tagged_sink (λ n. true) 0 refl

abbrev tags_example : List Label
tags_example = (codes "env", codes "prod") ∷ (codes "dc", codes "prod") ∷ []

abbrev reloaded_example : List Label
reloaded_example = (codes "dc", codes "prod") ∷ (codes "env", codes "prod") ∷ []

reload_leaks_nothing :
    (leak_tags reloaded_example (leak_tags tags_example []).1).1 ≡ (leak_tags tags_example []).1
reload_leaks_nothing =
    leak_tags_again tags_example reloaded_example [] (tail (head refl), (head refl, tt))

-- A mount hangs, is asked for again, is forgotten and asked for once more, and answers then.
abbrev operations_example : List (Operation ℕ)
operations_example =
    reads (codes "/mnt/nfs") timed_out
    ∷ reads (codes "/mnt/nfs") timed_out
    ∷ retains []
    ∷ reads (codes "/") (answered (some 7))
    ∷ finishes 1
    ∷ reads (codes "/mnt/nfs") (answered (some 8))
    ∷ []

two_threads :
    map (λ t. t.0) (operate_all operations_example with_reader).threads
    ≡ codes "/mnt/nfs" ∷ codes "/" ∷ []
unfolding operate_all eqb
two_threads = refl

outstanding-operate_all_example :
    outstanding (codes "/mnt/nfs") (operate_all operations_example with_reader).threads ≤ 1
outstanding-operate_all_example = outstanding-operate_all operations_example (codes "/mnt/nfs")
