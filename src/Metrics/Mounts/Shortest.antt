-- ===== src/Metrics/Mounts/Shortest.antt =====
-- src/metrics/linux/disk.rs: the choice of a mount for each device.
use witness.Prelude.{
  ◌≤◌, ◌≡◌, refl, sym, ap, ◌∙◌, subst, ◌⊎◌, inl, inr, Bool, true, false, ◌||◌, List, [], ◌∷◌, arith,
  leb, leb→le, Bool-cases,
}
use witness.Std.Split.{lines}
use witness.Prelude.Str.{Bytes, eqb, eqb_iff}
use witness.Metrics.Disk.{MountInfo}
use witness.Metrics.Mounts.{
  Bytes, mem, depth, place, sort_mounts, first_mounts, parse_mounts, mounts_of,
}

-- A mount among others.
abbrev pub In : MountInfo → List MountInfo → Type 0
In m [] = ⊥
In m (x ∷ xs) = (x ≡ m) ⊎ In m xs

-- Sorted by the length of the mount point.
abbrev IsSorted : List MountInfo → Type 0
IsSorted [] = Unit
IsSorted (m ∷ ms) = ((x : MountInfo) → In x ms → depth m ≤ depth x) × IsSorted ms

place-In : (m x : MountInfo) (ms : List MountInfo) → In x (place m ms) → (m ≡ x) ⊎ In x ms
unfolding place
place-In m x [] (inl e) = inl e
place-In m x [] (inr i) = absurd i
place-In m x (y ∷ ys) i = elim (Bool-cases (leb (depth m) (depth y))) [
  | inl e ↦ rw e at i
  | inr e ↦ elim (rw e at i) [
    | inl same ↦ inr (inl same)
    | inr later ↦ elim (place-In m x ys later) [ inl same ↦ inl same | inr there ↦ inr (inr there) ]
  ]
]

In-place : (m x : MountInfo) (ms : List MountInfo) → (m ≡ x) ⊎ In x ms → In x (place m ms)
unfolding place
In-place m x [] i = i
In-place m x (y ∷ ys) i = elim (Bool-cases (leb (depth m) (depth y))) [
  | inl e ↦ rw e i
  | inr e ↦ rw e (elim i [
    | inl same ↦ inr (In-place m x ys (inl same))
    | inr (inl here) ↦ inl here
    | inr (inr there) ↦ inr (In-place m x ys (inr there))
  ])
]

place-IsSorted : (m : MountInfo) (ms : List MountInfo) → IsSorted ms → IsSorted (place m ms)
unfolding place
place-IsSorted m [] s = ((λ x i. absurd i), tt)
place-IsSorted m (y ∷ ys) (least, s) = elim (Bool-cases (leb (depth m) (depth y))) [
  | inl e ↦ rw e ((λ x i. below x i e least), (least, s))
  | inr e ↦ rw e ((λ x i. behind x (place-In m x ys i) e least), place-IsSorted m ys s)
]
  where
    below :
        (x : MountInfo)
        → In x (y ∷ ys)
        → leb (depth m) (depth y) ≡ true
        → ((x : MountInfo) → In x ys → depth y ≤ depth x)
        → depth m ≤ depth x
    below x (inl same) e least = subst (λ z. depth m ≤ depth z) same (leb→le (depth m) (depth y) e)
    below x (inr i) e least = omega (arith, leb→le (depth m) (depth y) e, least x i)

    order : leb (depth m) (depth y) ≡ false → depth y ≤ depth m
    order e = ground arith

    behind :
        (x : MountInfo)
        → (m ≡ x) ⊎ In x ys
        → leb (depth m) (depth y) ≡ false
        → ((x : MountInfo) → In x ys → depth y ≤ depth x)
        → depth y ≤ depth x
    behind x (inl same) e least = subst (λ z. depth y ≤ depth z) same (order e)
    behind x (inr i) e least = least x i

sort_mounts-IsSorted : (ms : List MountInfo) → IsSorted (sort_mounts ms)
unfolding sort_mounts
sort_mounts-IsSorted [] = tt
sort_mounts-IsSorted (m ∷ ms) = place-IsSorted m (sort_mounts ms) (sort_mounts-IsSorted ms)

sort_mounts-In : (x : MountInfo) (ms : List MountInfo) → In x (sort_mounts ms) → In x ms
unfolding sort_mounts
sort_mounts-In x [] i = i
sort_mounts-In x (m ∷ ms) i = elim (place-In m x (sort_mounts ms) i) [
  | inl same ↦ inl same
  | inr there ↦ inr (sort_mounts-In x ms there)
]

In-sort_mounts : (x : MountInfo) (ms : List MountInfo) → In x ms → In x (sort_mounts ms)
unfolding sort_mounts
In-sort_mounts x [] i = absurd i
In-sort_mounts x (m ∷ ms) (inl same) = In-place m x (sort_mounts ms) (inl same)
In-sort_mounts x (m ∷ ms) (inr there) =
    In-place m x (sort_mounts ms) (inr (In-sort_mounts x ms there))

abbrev pub IsDistinct : List MountInfo → Type 0
IsDistinct [] = Unit
IsDistinct (m ∷ ms) = ((x : MountInfo) → In x ms → m.device ≡ x.device → ⊥) × IsDistinct ms

-- What `kept` has of `mounts` for the devices that are not in `seen`.
pub record IsShortest (seen : List Bytes) (mounts kept : List MountInfo) : Type 0 where
  pub among : (m : MountInfo) → In m kept → In m mounts
  pub fresh : (m : MountInfo) → In m kept → mem m.device seen ≡ false
  pub shortest :
      (m x : MountInfo) → In m kept → In x mounts → m.device ≡ x.device → depth m ≤ depth x
  pub complete :
      (x : MountInfo)
      → In x mounts
      → mem x.device seen ≡ false
      → (m : MountInfo) × In m kept × (m.device ≡ x.device)
  pub distinct : IsDistinct kept

clash : {b : Bool} → b ≡ true → b ≡ false → ⊥
clash e h = cc

not_first : (a b : Bool) → (a || b) ≡ false → (a ≡ false) × (b ≡ false)
not_first true b h = cc
not_first false b h = (refl, h)

neither : {a b : Bool} → a ≡ false → b ≡ false → (a || b) ≡ false
neither e h = rw e h

first_mounts_lem :
    (seen : List Bytes) (ms : List MountInfo)
    → IsSorted ms
    → IsShortest seen ms (first_mounts seen ms)
unfolding first_mounts
first_mounts_lem seen [] s = record {
  among = λ m i. i;
  fresh = λ m i. absurd i;
  shortest = λ m x i j e. absurd i;
  complete = λ x i e. absurd i;
  distinct = tt;
}
first_mounts_lem seen (m ∷ ms) (least, s) = elim (Bool-cases (mem m.device seen)) [
  | inl old ↦ rw (old, first_mounts) (skipped old (first_mounts_lem seen ms s))
  | inr new ↦ rw (new, first_mounts) (taken new (first_mounts_lem (m.device ∷ seen) ms s))
]
  where
    skipped :
        {kept : List MountInfo}
        → mem m.device seen ≡ true
        → IsShortest seen ms kept
        → IsShortest seen (m ∷ ms) kept
    skipped old r = record {
      among = λ y i. inr (r.among y i);
      fresh = r.fresh;
      shortest = λ y x i j e. elim j [
        | inl same ↦
            absurd
              (clash old (ap (λ z. mem z seen) (ap (λ z. z.device) same ∙ sym e) ∙ r.fresh y i))
        | inr there ↦ r.shortest y x i there e
      ];
      complete = λ x j e. elim j [
        | inl same ↦ absurd (clash old (ap (λ z. mem z.device seen) same ∙ e))
        | inr there ↦ r.complete x there e
      ];
      distinct = r.distinct;
    }

    apart :
        {kept : List MountInfo}
        → IsShortest (m.device ∷ seen) ms kept
        → (y : MountInfo) → In y kept
        → m.device ≡ y.device
        → ⊥
    apart r y i e = clash ((eqb_iff m.device y.device).1 e) (not_first _ _ (r.fresh y i)).0

    taken :
        {kept : List MountInfo}
        → mem m.device seen ≡ false
        → IsShortest (m.device ∷ seen) ms kept
        → IsShortest seen (m ∷ ms) (m ∷ kept)
    taken new r = record {
      among = λ y i. elim i [ inl same ↦ inl same | inr there ↦ inr (r.among y there) ];
      fresh = λ y i. elim i [
        | inl same ↦ ap (λ z. mem z.device seen) (sym same) ∙ new
        | inr there ↦ (not_first _ _ (r.fresh y there)).1
      ];
      shortest = λ y x i j e. elim i [
        | inl at ↦ elim j [
          | inl same ↦ subst (λ z. depth y ≤ depth z) (sym at ∙ same) (omega arith)
          | inr there ↦ subst (λ z. depth z ≤ depth x) at (least x there)
        ]
        | inr behind ↦ elim j [
          | inl same ↦ absurd (apart r y behind (ap (λ z. z.device) same ∙ sym e))
          | inr there ↦ r.shortest y x behind there e
        ]
      ];
      complete = λ x j e. elim j [
        | inl same ↦ (m, inl refl, ap (λ z. z.device) same)
        | inr there ↦ elim (Bool-cases (eqb m.device x.device)) [
          | inl is ↦ (m, inl refl, (eqb_iff m.device x.device).0 is)
          | inr other ↦ let (y, i, at) = r.complete x there (neither other e) in (y, inr i, at)
        ]
      ];
      distinct = (apart r, r.distinct);
    }

-- Of the mounts of the allowed types in /proc/mounts, `parse_mounts` reports each device once, at a
-- mount point that is none longer than any other of the device, and leaves no device out.
pub parse_mounts-IsShortest :
    (buf : Bytes) (fs_types : List Bytes)
    → IsShortest [] (mounts_of fs_types (lines buf)) (parse_mounts buf fs_types)
unfolding parse_mounts
parse_mounts-IsShortest buf fs_types =
    unsorted (first_mounts_lem [] (sort_mounts all_mounts) (sort_mounts-IsSorted all_mounts))
  where
    all_mounts : List MountInfo
    all_mounts = mounts_of fs_types (lines buf)

    unsorted :
        {kept : List MountInfo}
        → IsShortest [] (sort_mounts all_mounts) kept
        → IsShortest [] all_mounts kept
    unsorted r = record {
      among = λ y i. sort_mounts-In y all_mounts (r.among y i);
      fresh = r.fresh;
      shortest = λ y x i j. r.shortest y x i (In-sort_mounts x all_mounts j);
      complete = λ x j. r.complete x (In-sort_mounts x all_mounts j);
      distinct = r.distinct;
    }
