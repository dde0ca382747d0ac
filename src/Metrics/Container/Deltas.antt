-- ===== src/Metrics/Container/Deltas.antt =====
-- src/metrics/linux/container.rs: that each container is measured against itself.
use witness.Prelude.{
  ◌≡◌, refl, sym, ap, ap₂, ◌∙◌, Bool, true, false, ◌||◌, Option, none, some, List, [], ◌∷◌, ◌++◌,
  map, arith, if◌then◌else◌, any, All, true_or,
}
use witness.Prelude.Str.{Bytes, eqb, eqb_iff, eqb_refl, eqb_sym}
use witness.Assoc.{Assoc, bytes_key, lookup, lookup-insert, lookup-insert_other}
use witness.Metrics.{Floats, Metric, Procfs}
use witness.Metrics.Container.{ContainerInfo, CpuPrev, Directories}
use witness.Metrics.Container.Collect.{
  ContainerCollector, deltas_from, cpu_sample, with_sample, collect_cpu, collect_memory,
  collect_all, known, retain, collect,
}

abbrev pub Unlike : ContainerInfo → List ContainerInfo → Type 0
Unlike c cs = All (λ d. eqb c.short_id d.short_id ≡ false) cs

-- No two containers have one short identifier.
abbrev pub DistinctIds : List ContainerInfo → Type 0
DistinctIds [] = Unit
DistinctIds (c ∷ cs) = Unlike c cs × DistinctIds cs

abbrev pub newest : Option CpuPrev → Option CpuPrev → Option CpuPrev
newest none old = old
newest (some current) old = some current

abbrev is_among : Bytes → List Bytes → Bool
is_among id seen = any (λ s. eqb s id) seen

among_same : (seen : List Bytes) (i j : Bytes) → eqb i j ≡ true → is_among i seen ≡ is_among j seen
among_same seen i j e = ap (λ k. is_among k seen) ((eqb_iff i j).0 e)

lookup-retain :
    (seen : List Bytes) (id : Bytes) (m : Assoc Bytes CpuPrev)
    → lookup id (retain seen m) ≡ (if is_among id seen then lookup id m else none)
unfolding retain lookup
lookup-retain seen id [] = ground arith
lookup-retain seen id ((j, p) ∷ m) =
    by_cases (is_among j seen) refl (eqb j id) refl (lookup-retain seen id m)
  where
    by_cases :
        (kept : Bool)
        → is_among j seen ≡ kept
        → (same : Bool) → eqb j id ≡ same
        → lookup id (retain seen m) ≡ (if is_among id seen then lookup id m else none)
        → lookup id (if kept then (j, p) ∷ retain seen m else retain seen m)
          ≡ (if is_among id seen then (if same then some p else lookup id m) else none)
    by_cases true y true e rest = rw (e, sym (among_same seen j id e) ∙ y) refl
    by_cases true y false e rest = rw e rest
    by_cases false n true e rest =
        rw (sym (among_same seen j id e) ∙ n) (rest ∙ rw (sym (among_same seen j id e) ∙ n) refl)
    by_cases false n false e rest = rest

module _ (floats : Floats) (parse_f64 : Bytes → Option (floats.F64)) (procfs : Procfs) where
  open floats use {F64}

  abbrev cpu_report : ContainerInfo → Option CpuPrev → Option CpuPrev → List (Metric F64)
  cpu_report c old none = []
  cpu_report c old (some current) = deltas_from floats parse_f64 procfs c old current

  -- What is sent for one container, from its counters of the tick before.
  abbrev pub report : ContainerInfo → Option CpuPrev → List (Metric F64)
  report c old =
      cpu_report c old (cpu_sample floats parse_f64 procfs c)
      ++ collect_memory floats parse_f64 procfs c

  abbrev pub reports : Assoc Bytes CpuPrev → List ContainerInfo → List (Metric F64)
  reports m [] = []
  reports m (c ∷ cs) = report c (lookup c.short_id m) ++ reports m cs

  with_sample_lem :
      (c : ContainerInfo) (o : Option CpuPrev) (m : Assoc Bytes CpuPrev)
      → ((with_sample floats parse_f64 procfs c o m).0 ≡ cpu_report c (lookup c.short_id m) o)
        × (lookup c.short_id (with_sample floats parse_f64 procfs c o m).1
            ≡ newest o (lookup c.short_id m))
  unfolding with_sample
  with_sample_lem c none m = (refl, refl)
  with_sample_lem c (some current) m =
      (refl, lookup-insert c.short_id c.short_id current m ∙ rw (eqb_refl c.short_id) refl)

  with_sample_other :
      (c : ContainerInfo) (o : Option CpuPrev) (id : Bytes) (m : Assoc Bytes CpuPrev)
      → eqb c.short_id id ≡ false
      → lookup id (with_sample floats parse_f64 procfs c o m).1 ≡ lookup id m
  unfolding with_sample
  with_sample_other c none id m other = refl
  with_sample_other c (some current) id m other = lookup-insert_other c.short_id id current m other

  collect_cpu_other :
      (c : ContainerInfo) (id : Bytes) (m : Assoc Bytes CpuPrev)
      → eqb c.short_id id ≡ false
      → lookup id (collect_cpu floats parse_f64 procfs c m).1 ≡ lookup id m
  unfolding collect_cpu
  collect_cpu_other c id m other =
      with_sample_other c (cpu_sample floats parse_f64 procfs c) id m other

  -- Reports do not depend on the counters of other containers.
  reports_same :
      (m m' : Assoc Bytes CpuPrev) (c : ContainerInfo) (cs : List ContainerInfo)
      → ((id : Bytes) → eqb c.short_id id ≡ false → lookup id m' ≡ lookup id m)
      → Unlike c cs
      → reports m' cs ≡ reports m cs
  reports_same m m' c [] h u = refl
  reports_same m m' c (d ∷ ds) h u =
      ap₂ (λ o rest. report d o ++ rest) (h d.short_id u.0) (reports_same m m' c ds h u.1)

  collected_reports :
      (cs : List ContainerInfo) (m : Assoc Bytes CpuPrev)
      → DistinctIds cs
      → (collect_all floats parse_f64 procfs cs m).0 ≡ reports m cs
  unfolding collect_all collect_cpu
  collected_reports [] m d = refl
  collected_reports (c ∷ cs) m d =
      let sample = cpu_sample floats parse_f64 procfs c in
      let memory = collect_memory floats parse_f64 procfs c in
      let m' = (with_sample floats parse_f64 procfs c sample m).1 in
      let rest =
        collected_reports cs m' d.1
        ∙ reports_same m m' c cs (λ id other. with_sample_other c sample id m other) d.0 in
      ap₂ (λ cpu others. (cpu ++ memory) ++ others) (with_sample_lem c sample m).0 rest

  untouched :
      (id : Bytes) (cs : List ContainerInfo) (m : Assoc Bytes CpuPrev)
      → All (λ d. eqb id d.short_id ≡ false) cs
      → lookup id (collect_all floats parse_f64 procfs cs m).1 ≡ lookup id m
  unfolding collect_all
  untouched id [] m u = refl
  untouched id (c ∷ cs) m u =
      untouched id cs (collect_cpu floats parse_f64 procfs c m).1 u.1
      ∙ collect_cpu_other c id m (eqb_sym id c.short_id u.0)

  abbrev pub Newest : Assoc Bytes CpuPrev → Assoc Bytes CpuPrev → ContainerInfo → Type 0
  Newest m m' c =
      lookup c.short_id m' ≡ newest (cpu_sample floats parse_f64 procfs c) (lookup c.short_id m)

  collected-Newest :
      (cs : List ContainerInfo) (m : Assoc Bytes CpuPrev)
      → DistinctIds cs
      → All (Newest m (collect_all floats parse_f64 procfs cs m).1) cs
  unfolding collect_all collect_cpu
  collected-Newest [] m d = tt
  collected-Newest (c ∷ cs) m d =
      let sample = cpu_sample floats parse_f64 procfs c in
      let m' = (with_sample floats parse_f64 procfs c sample m).1 in
      let final = (collect_all floats parse_f64 procfs cs m').1 in
      (
        untouched c.short_id cs m' d.0 ∙ (with_sample_lem c sample m).1,
        others c cs m m' final (λ id other. with_sample_other c sample id m other) d.0
            (collected-Newest cs m' d.1),
      )
    where
      others :
          (c : ContainerInfo) (ds : List ContainerInfo) (m m' final : Assoc Bytes CpuPrev)
          → ((id : Bytes) → eqb c.short_id id ≡ false → lookup id m' ≡ lookup id m)
          → Unlike c ds
          → All (Newest m' final) ds
          → All (Newest m final) ds
      others c [] m m' final h u a = tt
      others c (d ∷ ds) m m' final h u a = (
        a.0 ∙ ap (newest (cpu_sample floats parse_f64 procfs d)) (h d.short_id u.0),
        others c ds m m' final h u.1 a.1,
      )

  retained-Newest :
      (cs : List ContainerInfo) (m m' : Assoc Bytes CpuPrev) (seen : List Bytes)
      → All (λ c. is_among c.short_id seen ≡ true) cs
      → All (Newest m m') cs
      → All (Newest m (retain seen m')) cs
  retained-Newest [] m m' seen h a = tt
  retained-Newest (c ∷ cs) m m' seen h a =
      (lookup-retain seen c.short_id m' ∙ rw h.0 a.0, retained-Newest cs m m' seen h.1 a.1)

  seen_ids :
      (seen : List Bytes) (cs : List ContainerInfo)
      → ((id : Bytes) → is_among id (map (λ c. c.short_id) cs) ≡ true → is_among id seen ≡ true)
      → All (λ c. is_among c.short_id seen ≡ true) cs
  seen_ids seen [] h = tt
  seen_ids seen (c ∷ cs) h = (
    h c.short_id (rw (eqb_refl c.short_id) refl),
    seen_ids seen cs
        (λ id y. h id (true_or (eqb c.short_id id) (is_among id (map (λ c. c.short_id) cs)) y)),
  )

  -- A tick, if the short identifiers of the containers are distinct. What is sent is, container by
  -- container, the differences to its own counters of the tick before, if it had any, and its memory.
  -- Behind the tick its counters are those just read, or the old ones if they cannot be read; and of a
  -- container that is not there any more nothing is kept.
  pub collect_lem :
      (dirs : Directories) (s : ContainerCollector)
      → DistinctIds (known floats parse_f64 procfs dirs s)
      → (let o = collect floats parse_f64 procfs dirs s in
          let containers = known floats parse_f64 procfs dirs s in
          (o.0 ≡ reports s.prev_cpu containers)
          × All (Newest s.prev_cpu o.1.prev_cpu) containers
          × ((id : Bytes)
              → any (λ c. eqb c.short_id id) containers ≡ false
              → lookup id o.1.prev_cpu ≡ none))
  unfolding collect
  collect_lem dirs s d =
      let containers = known floats parse_f64 procfs dirs s in
      let seen = map (λ c. c.short_id) containers in
      let m = (collect_all floats parse_f64 procfs containers s.prev_cpu).1 in
      (
        collected_reports containers s.prev_cpu d,
        retained-Newest containers s.prev_cpu m seen (seen_ids seen containers (λ id y. y))
            (collected-Newest containers s.prev_cpu d),
        λ id gone. lookup-retain seen id m ∙ rw (sym (any-map id containers) ∙ gone) refl,
      )
    where
      any-map :
          (id : Bytes) (cs : List ContainerInfo)
          → any (λ c. eqb c.short_id id) cs ≡ is_among id (map (λ c. c.short_id) cs)
      any-map id [] = refl
      any-map id (c ∷ cs) = ap (λ b. eqb c.short_id id || b) (any-map id cs)
