-- ===== src/Structured/Logfmt/Start.antt =====
-- src/logs/structured.rs: where the fields of a message begin.
use witness.Prelude.{
  ℕ, zero, suc, ◌+◌, ◌-◌, ◌≤◌, ◌<◌, ◌≡◌, refl, sym, ap, ap₂, ◌∙◌, subst, ◌≢◌, inl, inr, Bool, true,
  ◌&&◌, none, some, List, [], ◌∷◌, ◌++◌, map, append_assoc, arith, ltb, ◌==◌, if◌then◌else◌, ==_iff,
  Bool-cases, Option-cases, length, drop, all, All, length-append, drop-add,
}
use witness.Prelude.Str.{Bytes}
use witness.Std.Scan.{span_exact, skip_while}
use witness.Crates.{Crates, positions}
use witness.Structured.Logfmt.{
  is_logfmt_key_byte, byte_at, key_start, field_space, first_field, logfmt_field_start, value,
  field_behind, field, fields_at, parse_fields, parse_logfmt_fields,
}
use witness.Structured.Logfmt.RoundTrip.{IsKey, equals_stops, key_not_space}

-- At this index stands the byte.
abbrev StandsAt : ℕ → Bytes → ℕ → Type 0
StandsAt c s i = (rest : Bytes) × (drop i s ≡ c ∷ rest)

All-suc :
    (c x : ℕ) (s : Bytes) (is : List ℕ)
    → All (StandsAt c s) is
    → All (StandsAt c (x ∷ s)) (map suc is)
All-suc c x s [] h = tt
All-suc c x s (i ∷ is) (h, hs) = (h, All-suc c x s is hs)

positions-StandsAt : (c : ℕ) (s : Bytes) → All (StandsAt c s) (positions c s)
unfolding positions
positions-StandsAt c [] = tt
positions-StandsAt c (x ∷ xs) = elim (Bool-cases (x == c)) [
  | inl e ↦ rw e (
    (xs, ap (λ y. y ∷ xs) ((==_iff x c).0 e)),
    All-suc c x xs (positions c xs) (positions-StandsAt c xs),
  )
  | inr e ↦ rw e (All-suc c x xs (positions c xs) (positions-StandsAt c xs))
]

drop-byte_at : (k : ℕ) (s : Bytes) → k < length s → drop k s ≡ byte_at s k ∷ drop (suc k) s
drop-byte_at k [] h = absurd (omega arith)
drop-byte_at zero (x ∷ xs) h = refl
drop-byte_at (suc k) (x ∷ xs) h = drop-byte_at k xs (omega arith)

drop-inside : (k : ℕ) (s : Bytes) (c : ℕ) (rest : Bytes) → drop k s ≡ c ∷ rest → k < length s
drop-inside zero [] c rest e = cc
drop-inside zero (x ∷ xs) c rest e = omega arith
drop-inside (suc k) [] c rest e = cc
drop-inside (suc k) (x ∷ xs) c rest e = omega (arith, drop-inside k xs c rest e)

all-append : (p : ℕ → Bool) (s r : Bytes) → all p s ≡ true → all p r ≡ true → all p (s ++ r) ≡ true
all-append p [] r h k = k
all-append p (x ∷ xs) r h k = elim (Bool-cases (p x)) [
  | inl e ↦ rw e (all-append p xs r (rw e at h) k)
  | inr e ↦ cc (rw e at h)
]

-- From the start of a key up to an index.
record KeyBefore (s : Bytes) (k at : ℕ) : Type 0 where
  key : Bytes
  all_key : all is_logfmt_key_byte key ≡ true
  spans : drop at s ≡ key ++ drop k s
  counts : at + length key ≡ k

key_start-KeyBefore : (s : Bytes) (k : ℕ) → k ≤ length s → KeyBefore s k (key_start s k)
unfolding key_start
key_start-KeyBefore s zero h = record {
  key = [];
  all_key = refl;
  spans = refl;
  counts = omega arith;
}
key_start-KeyBefore s (suc k) h = elim (Bool-cases (is_logfmt_key_byte (byte_at s k))) [
  | inr e ↦
      rw (e, key_start) (record { key = []; all_key = refl; spans = refl; counts = omega arith })
  | inl e ↦ rw (e, key_start) (longer e (key_start-KeyBefore s k (omega arith)))
]
  where
    longer :
        {at : ℕ}
        → is_logfmt_key_byte (byte_at s k) ≡ true
        → KeyBefore s k at
        → KeyBefore s (suc k) at
    longer e b = record {
      key = b.key ++ byte_at s k ∷ [];
      all_key = all-append is_logfmt_key_byte b.key (byte_at s k ∷ []) b.all_key (rw e refl);
      spans =
          b.spans
          ∙ ap (λ r. b.key ++ r) (drop-byte_at k s (omega arith))
          ∙ sym (append_assoc b.key (byte_at s k ∷ []) (drop (suc k) s));
      counts = omega (arith, b.counts, length-append b.key (byte_at s k ∷ []));
    }

-- A field stands behind the space at this index.
pub record FieldAt (s : Bytes) (at : ℕ) : Type 0 where
  pub key : Bytes
  pub rest : Bytes
  pub is_key : IsKey (key, [])
  pub stands : drop at s ≡ b' ' ∷ (key ++ b'=' ∷ rest)

field_space-FieldAt :
    (s : Bytes) (eq at : ℕ) → StandsAt b'=' s eq → field_space s eq ≡ some at → FieldAt s at
unfolding field_space
field_space-FieldAt s eq at (rest, here) h =
    from_key (key_start s eq)
      (key_start-KeyBefore s eq (omega (arith, drop-inside eq s b'=' rest here))) h
  where
    some_inj : (a b : ℕ) → some a ≡ some b → a ≡ b
    some_inj a b e = cc

    none_ne : (a : ℕ) → none ≡ some a → ⊥
    none_ne a e = cc

    some_key : (k : ℕ) (key : Bytes) → k < eq → k + length key ≡ eq → key ≢ []
    some_key k [] less sum e = omega (arith, less, sum)
    some_key k (c ∷ cs) less sum e = cc

    space_at :
        (k : ℕ) (b : KeyBefore s eq k)
        → k < eq
        → 0 < k
        → byte_at s (k - 1) ≡ b' '
        → drop (k - 1) s ≡ b' ' ∷ (b.key ++ b'=' ∷ rest)
    space_at k b less pos space =
        drop-byte_at (k - 1) s (omega (arith, less, drop-inside eq s b'=' rest here))
        ∙ ap₂ ◌∷◌ space (ap (λ j. drop j s) (the_next k pos) ∙ b.spans ∙ ap (λ r. b.key ++ r) here)
      where
        the_next : (k : ℕ) → 0 < k → suc (k - 1) ≡ k
        the_next k pos = omega (arith, pos)

    from_key :
        (k : ℕ)
        → KeyBefore s eq k
        → (if ltb k eq && ltb 0 k && byte_at s (k - 1) == b' ' then some (k - 1) else none)
          ≡ some at
        → FieldAt s at
    from_key k b e = elim (Bool-cases (ltb k eq && ltb 0 k && byte_at s (k - 1) == b' ')) [
      | inr no_field ↦ absurd (none_ne at (rw no_field at e))
      | inl is_field ↦
          let less : k < eq = ground (arith, is_field) in
          let pos : 0 < k = ground (arith, is_field) in
          let space : byte_at s (k - 1) ≡ b' ' = ground (arith, is_field) in
          subst (FieldAt s) (some_inj (k - 1) at (rw is_field at e)) (record {
            key = b.key;
            rest = rest;
            is_key = (some_key k b.key less b.counts, b.all_key);
            stands = space_at k b less pos space;
          })
    ]

first_field-FieldAt :
    (s : Bytes) (eqs : List ℕ) (at : ℕ)
    → All (StandsAt b'=' s) eqs
    → first_field s eqs ≡ some at
    → FieldAt s at
unfolding first_field
first_field-FieldAt s [] at hs h = cc
first_field-FieldAt s (eq ∷ eqs) at (here, hs) h = elim (Option-cases (field_space s eq)) [
  | inr (i, e) ↦
      subst (FieldAt s) (inj i (rw (e, first_field) at h)) (field_space-FieldAt s eq i here e)
  | inl e ↦ first_field-FieldAt s eqs at hs (rw (e, first_field) at h)
]
  where
    inj : (i : ℕ) → some i ≡ some at → i ≡ at
    inj i e = cc

-- The fields of a tail that begins with a field: the first one has its key and its value.
field-key :
    (c : ℕ) (cs rest : Bytes)
    → all is_logfmt_key_byte (c ∷ cs) ≡ true
    → (field ((c ∷ cs) ++ b'=' ∷ rest)).0 ≡ some (c ∷ cs, (value rest).0)
unfolding field field_behind
field-key c cs rest h = rw (span_exact is_logfmt_key_byte (c ∷ cs) (b'=' ∷ rest) h equals_stops)

parse_logfmt_fields-key :
    (key rest : Bytes)
    → IsKey (key, [])
    → (more : List (Bytes × Bytes)) × (parse_logfmt_fields (key ++ b'=' ∷ rest)
        ≡ (key, (value rest).0) ∷ more)
unfolding parse_logfmt_fields parse_fields fields_at skip_while
parse_logfmt_fields-key [] rest h = absurd (h.0 refl)
parse_logfmt_fields-key (c ∷ cs) rest h =
    let s = (c ∷ cs) ++ b'=' ∷ rest in
    (
      parse_fields (length s) (field s).1,
      rw (key_not_space c (all is_logfmt_key_byte cs) h.1, field-key c cs rest h.1),
    )

-- Where a message is split into its text and its fields, a space stands, and behind it a key, a `=`
-- and the rest; and the first field that is then parsed has that key and the value behind the `=`.
pub logfmt_field_start_lem :
    (crates : Crates) (s : Bytes) (at : ℕ)
    → logfmt_field_start crates s ≡ some at
    → (f : FieldAt s at) × (more : List (Bytes × Bytes)) × (parse_logfmt_fields (drop (at + 1) s)
        ≡ (f.key, (value f.rest).0) ∷ more)
unfolding logfmt_field_start
logfmt_field_start_lem crates s at h =
    let f =
      first_field-FieldAt s (positions b'=' s) at (positions-StandsAt b'=' s)
        (ap (first_field s) (sym (crates.memchr_iter_all b'=' s)) ∙ h) in
    let (more, parsed) = parse_logfmt_fields-key f.key f.rest f.is_key in
    (f, more, ap parse_logfmt_fields (drop-add at 1 s ∙ ap (drop 1) f.stands) ∙ parsed)
