-- ===== src/Text/Reading.antt =====
-- src/logs/text.rs: one call of `read_line`.
use native.Mathlib.Numerals.{add-one}
use native.Mathlib.Nat.{add_assoc}
use witness.Prelude.{
  ℕ, zero, suc, ◌+◌, ◌≡◌, refl, sym, ap, ◌∙◌, inl, inr, Bool, true, false, ◌||◌, Option, none, some,
  [], ◌∷◌, ◌++◌, append-nil, append_assoc, arith, ◌==◌, if◌then◌else◌, Option-cases, length, take,
  drop, any, length-append,
}
use witness.Prelude.Str.{Bytes}
use witness.Crates.{Crates, position}
use witness.Text.{chunk, interrupted, failed, Reader, leave, read_from, read_line}
use witness.Text.Lines.{first_line, first_line-position, first_line-no_position}

-- The bytes up to the end of the file, or up to an error.
unfoldable pub data_of : Reader → Bytes
data_of [] = []
data_of (interrupted ∷ r) = data_of r
data_of (failed ∷ r) = []
data_of (chunk [] ∷ r) = []
data_of (chunk (c ∷ cs) ∷ r) = (c ∷ cs) ++ data_of r

-- Whether those bytes end at the end of the file.
unfoldable pub ends_well : Reader → Bool
ends_well [] = true
ends_well (interrupted ∷ r) = ends_well r
ends_well (failed ∷ r) = false
ends_well (chunk [] ∷ r) = true
ends_well (chunk (c ∷ cs) ∷ r) = ends_well r

abbrev pub has_newline : Bytes → Bool
has_newline = any (λ c. c == b'\n')

-- The count that a call is to return.
abbrev pub count_of : ℕ → Bytes → Bool → Option ℕ
count_of read d well = if has_newline d || well then some (read + length (first_line d)) else none

position-none : (a : Bytes) → position b'\n' a ≡ none → has_newline a ≡ false
unfolding position
position-none [] h = refl
position-none (c ∷ cs) h = ground (arith, position-none cs)

position-some : (a d : Bytes) (i : ℕ) → position b'\n' a ≡ some i → has_newline (a ++ d) ≡ true
unfolding position
position-some [] d i h = cc
position-some (c ∷ cs) d i h = elim (Option-cases (position b'\n' cs)) [
  | inl e ↦ ground arith
  | inr (j, e) ↦ ground (arith, position-some cs d j e)
]

has_newline-append : (a d : Bytes) → has_newline a ≡ false → has_newline (a ++ d) ≡ has_newline d
has_newline-append [] d h = refl
has_newline-append (c ∷ cs) d h = ground (arith, has_newline-append cs d)

length-take_exact :
    (a : Bytes) (i : ℕ) → position b'\n' a ≡ some i → length (take (suc i) a) ≡ suc i
unfolding position
length-take_exact [] i h = cc
length-take_exact (c ∷ cs) zero h = refl
length-take_exact (c ∷ cs) (suc i) h = ap suc (length-take_exact cs i (ground arith))

some_count :
    (d : Bytes) (well : Bool) (read n : ℕ)
    → has_newline d ≡ true
    → length (first_line d) ≡ n
    → some (read + n) ≡ count_of read d well
some_count d well read n h e = rw (h, e)

count_found :
    (a d : Bytes) (well : Bool) (read i : ℕ)
    → position b'\n' a ≡ some i
    → some (read + (i + 1)) ≡ count_of read (a ++ d) well
count_found a d well read i e =
    some_count (a ++ d) well read (i + 1) (position-some a d i e)
      (ap length (first_line-position a d i e).0 ∙ length-take_exact a i e ∙ sym (add-one i))

take_found :
    (a d buf : Bytes) (i : ℕ)
    → position b'\n' a ≡ some i
    → buf ++ take (i + 1) a ≡ buf ++ first_line (a ++ d)
take_found a d buf i e = rw (add-one, (first_line-position a d i e).0)

count_more :
    (a d : Bytes) (well : Bool) (read : ℕ)
    → position b'\n' a ≡ none
    → count_of (read + length a) d well ≡ count_of read (a ++ d) well
count_more a d well read e =
    rw (has_newline-append a d (position-none a e), (first_line-no_position a d e).0, length-append)
      (rw add_assoc)

take_more :
    (a d buf : Bytes)
    → position b'\n' a ≡ none
    → (buf ++ a) ++ first_line d ≡ buf ++ first_line (a ++ d)
take_more a d buf e = rw ((first_line-no_position a d e).0, append_assoc)

module _ (crates : Crates) where
  -- The chunk that holds the newline.
  pub read_from_found :
      (read i : ℕ) (a : Bytes) (r : Reader) (buf : Bytes)
      → position b'\n' a ≡ some i
      → read_from crates read (chunk a ∷ r) buf
        ≡ (some (read + (i + 1)), buf ++ take (i + 1) a, leave (drop (i + 1) a) r)
  unfolding read_from
  read_from_found read i a r buf h = rw (crates.memchr_first b'\n' a ∙ h, read_from)

  -- A chunk with no newline is taken whole.
  pub read_from_more :
      (read c : ℕ) (cs : Bytes) (r : Reader) (buf : Bytes)
      → position b'\n' (c ∷ cs) ≡ none
      → read_from crates read (chunk (c ∷ cs) ∷ r) buf
        ≡ read_from crates (read + length (c ∷ cs)) r (buf ++ c ∷ cs)
  unfolding read_from
  read_from_more read c cs r buf h = rw (crates.memchr_first b'\n' (c ∷ cs) ∙ h, read_from)

  abbrev pub Answers : ℕ → Reader → Bytes → Option ℕ × Bytes × Reader → Type 0
  Answers read r buf t =
      (t.0 ≡ count_of read (data_of r) (ends_well r)) × (t.1 ≡ buf ++ first_line (data_of r))

  pub read_from_end :
      (read : ℕ) (r : Reader) (buf : Bytes)
      → read_from crates read (chunk [] ∷ r) buf ≡ (some read, buf, r)
  unfolding read_from position
  read_from_end read r buf = rw (crates.memchr_first b'\n' [], read_from)

  pub read_from_retry :
      (read : ℕ) (r : Reader) (buf : Bytes)
      → read_from crates read (interrupted ∷ r) buf ≡ read_from crates read r buf
  unfolding read_from
  read_from_retry read r buf = refl

  no_bytes : (buf : Bytes) → buf ≡ buf ++ first_line []
  unfolding first_line
  no_bytes buf = sym (append-nil buf)

  no_count : (read : ℕ) → some read ≡ some (read + length (first_line []))
  unfolding first_line
  no_count read = ap some (omega arith)

  read_from_lem :
      (read : ℕ) (r : Reader) (buf : Bytes) → Answers read r buf (read_from crates read r buf)
  unfolding data_of ends_well
  read_from_lem read [] buf = unfold read_from in (no_count read, no_bytes buf)
  read_from_lem read (interrupted ∷ r) buf =
      rw (read_from_retry read r buf) (read_from_lem read r buf)
  read_from_lem read (failed ∷ r) buf = unfold read_from in (refl, no_bytes buf)
  read_from_lem read (chunk [] ∷ r) buf =
      rw (read_from_end read r buf) (no_count read, no_bytes buf)
  read_from_lem read (chunk (c ∷ cs) ∷ r) buf = elim (Option-cases (position b'\n' (c ∷ cs))) [
    | inr (i, e) ↦ rw (read_from_found read i (c ∷ cs) r buf e) (
      count_found (c ∷ cs) (data_of r) (ends_well r) read i e,
      take_found (c ∷ cs) (data_of r) buf i e,
    )
    | inl e ↦
        let (count, taken) = read_from_lem (read + length (c ∷ cs)) r (buf ++ c ∷ cs) in
        rw (read_from_more read c cs r buf e) (
          count ∙ count_more (c ∷ cs) (data_of r) (ends_well r) read e,
          taken ∙ take_more (c ∷ cs) (data_of r) buf e,
        )
  ]

  -- `read_line` returns the bytes up to and including the next newline, or all that are left before
  -- the end of the file, however they are cut into chunks and whenever it is interrupted; it fails
  -- exactly when an error stands before the next newline, and then too the bytes read are in `buf`.
  pub read_line_lem : (r : Reader) (buf : Bytes) → Answers 0 r buf (read_line crates r buf)
  unfolding read_line
  read_line_lem = read_from_lem 0
