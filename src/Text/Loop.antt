-- ===== src/Text/Loop.antt =====
-- src/logs/text.rs: a loop of calls of `read_line`.
use native.Mathlib.Numerals.{add-one}
use witness.Prelude.{
  ℕ, zero, suc, ◌+◌, ◌-◌, ◌≤◌, ◌<◌, ◌≡◌, refl, sym, ap, ◌∙◌, ◌⊎◌, inl, inr, Bool, true, some, List,
  [], ◌∷◌, ◌++◌, arith, Option-cases, length, drop, length-drop,
}
use witness.Prelude.Str.{Bytes}
use witness.Crates.{Crates, position}
use witness.Text.{
  chunk, interrupted, failed, Reader, leave, read_from, read_line, Reads, eof, got, size, reads_in,
  reads,
}
use witness.Text.Lines.{
  first_line, after_line, split_lines, split_lines_step, first_line-position,
  first_line-no_position,
}
use witness.Text.Reading.{
  data_of, ends_well, count_of, read_from_found, read_from_more, read_from_retry, read_line_lem,
}

-- A reader with no error, over a file that does not grow while it is read.
abbrev pub IsClean : Reader → Type 0
IsClean [] = Unit
IsClean (interrupted ∷ r) = IsClean r
IsClean (failed ∷ r) = ⊥
IsClean (chunk [] ∷ r) = ⊥
IsClean (chunk (c ∷ cs) ∷ r) = IsClean r

leave-IsClean : (a : Bytes) (r : Reader) → IsClean r → IsClean (leave a r)
leave-IsClean [] r h = h
leave-IsClean (c ∷ cs) r h = h

data_of-leave : (a : Bytes) (r : Reader) → data_of (leave a r) ≡ a ++ data_of r
unfolding data_of
data_of-leave [] r = refl
data_of-leave (c ∷ cs) r = refl

size-leave : (a : Bytes) (r : Reader) → size (leave a r) ≤ suc (length a + size r)
unfolding size
size-leave [] r = omega arith
size-leave (c ∷ cs) r = omega arith

IsClean-ends_well : (r : Reader) → IsClean r → ends_well r ≡ true
unfolding ends_well
IsClean-ends_well [] h = refl
IsClean-ends_well (interrupted ∷ r) h = IsClean-ends_well r h
IsClean-ends_well (failed ∷ r) h = absurd h
IsClean-ends_well (chunk [] ∷ r) h = absurd h
IsClean-ends_well (chunk (c ∷ cs) ∷ r) h = IsClean-ends_well r h

after_found :
    (i : ℕ) (a d : Bytes) → position b'\n' a ≡ some i → drop (i + 1) a ++ d ≡ after_line (a ++ d)
after_found i a d e = rw (add-one, (first_line-position a d i e).1)

size_found :
    (i : ℕ) (a : Bytes) (r : Reader)
    → 0 < length a
    → size (leave (drop (i + 1) a) r) ≤ length a + size r
size_found i a r h = omega (arith, size-leave (drop (i + 1) a) r, length-drop (i + 1) a)

counted : (d : Bytes) (well : Bool) → well ≡ true → count_of 0 d well ≡ some (length (first_line d))
counted d well h = ground arith

abbrev pub reads_of : List Bytes → Reads
reads_of [] = eof
reads_of (l ∷ ls) = got l (reads_of ls)

Bytes-cases : (s : Bytes) → (s ≡ []) ⊎ ((c : ℕ) × (cs : Bytes) × (s ≡ c ∷ cs))
Bytes-cases [] = inl refl
Bytes-cases (c ∷ cs) = inr (c, cs, refl)

size-pos : (r : Reader) (c : ℕ) (cs : Bytes) → data_of r ≡ c ∷ cs → 0 < size r
unfolding size data_of
size-pos [] c cs e = cc
size-pos (chunk a ∷ r) c cs e = omega arith
size-pos (interrupted ∷ r) c cs e = omega arith
size-pos (failed ∷ r) c cs e = omega arith

rest_of_line :
    (c : ℕ) (cs d : Bytes)
    → d ≡ c ∷ cs
    → some (length (first_line d)) ≡ some (suc (length (first_line (c ∷ cs)) - 1))
unfolding first_line
rest_of_line c cs d e = rw e (ap some (omega arith))

no_lines : split_lines [] ≡ []
unfolding split_lines
no_lines = refl

no_line : length (first_line []) ≡ 0
unfolding first_line
no_line = refl

module _ (crates : Crates) where
  abbrev Leaves : Reader → Reader → Type 0
  Leaves r r' = IsClean r' × (data_of r' ≡ after_line (data_of r)) × (size r' ≤ size r - 1)

  read_from-Leaves :
      (read : ℕ) (r : Reader) (buf : Bytes) → IsClean r → Leaves r (read_from crates read r buf).2
  unfolding data_of size
  read_from-Leaves read [] buf h = unfold read_from after_line in (tt, refl, omega arith)
  read_from-Leaves read (failed ∷ r) buf h = absurd h
  read_from-Leaves read (chunk [] ∷ r) buf h = absurd h
  read_from-Leaves read (interrupted ∷ r) buf h =
      let (clean, same, less) = read_from-Leaves read r buf h in
      rw (read_from_retry crates read r buf) (clean, same, omega arith)
  read_from-Leaves read (chunk (c ∷ cs) ∷ r) buf h = elim (Option-cases (position b'\n' (c ∷ cs))) [
    | inr (i, e) ↦ rw (read_from_found crates read i (c ∷ cs) r buf e) (
      leave-IsClean (drop (i + 1) (c ∷ cs)) r h,
      data_of-leave (drop (i + 1) (c ∷ cs)) r ∙ after_found i (c ∷ cs) (data_of r) e,
      omega (arith, size_found i (c ∷ cs) r (omega arith)),
    )
    | inl e ↦
        let (clean, same, less) = read_from-Leaves (read + length (c ∷ cs)) r (buf ++ c ∷ cs) h in
        rw (read_from_more crates read c cs r buf e)
          (clean, same ∙ sym (first_line-no_position (c ∷ cs) (data_of r) e).1, omega arith)
  ]

  reads_in_end :
      (fuel : ℕ) (r : Reader)
      → (read_line crates r []).0 ≡ some 0
      → reads_in crates (suc fuel) r ≡ eof
  unfolding reads_in
  reads_in_end fuel r h = rw (h, reads_in)

  reads_in_got :
      (fuel n : ℕ) (r : Reader)
      → (read_line crates r []).0 ≡ some (suc n)
      → reads_in crates (suc fuel) r
        ≡ got (read_line crates r []).1 (reads_in crates fuel (read_line crates r []).2)
  unfolding reads_in
  reads_in_got fuel n r h = rw (h, reads_in) (ground arith)

  read_line_clean :
      (r : Reader)
      → IsClean r
      → ((read_line crates r []).0 ≡ some (length (first_line (data_of r))))
        × ((read_line crates r []).1 ≡ first_line (data_of r))
        × Leaves r (read_line crates r []).2
  unfolding read_line
  read_line_clean r h =
      let (count, taken) = read_line_lem crates r [] in
      (
        count ∙ counted (data_of r) (ends_well r) (IsClean-ends_well r h),
        taken,
        read_from-Leaves 0 r [] h,
      )

  reads_in_clean :
      (fuel : ℕ) (r : Reader)
      → IsClean r
      → size r < fuel
      → reads_in crates fuel r ≡ reads_of (split_lines (data_of r))
  reads_in_clean zero r h less = elim less [ ]
  reads_in_clean (suc fuel) r h less =
      let (count, taken, left) = read_line_clean r h in
      elim (Bytes-cases (data_of r)) [
        | inl e ↦
            reads_in_end fuel r (count ∙ ap (λ d. some (length (first_line d))) e ∙ ap some no_line)
            ∙ sym (ap (λ d. reads_of (split_lines d)) e ∙ ap reads_of no_lines)
        | inr (c, cs, e) ↦
            reads_in_got fuel (length (first_line (c ∷ cs)) - 1) r
              (count ∙ rest_of_line c cs (data_of r) e)
            ∙ rw (
              taken,
              reads_in_clean fuel (read_line crates r []).2 left.0
                  (omega (arith, size-pos r c cs e)),
              left.1,
              e,
              split_lines_step,
            )
      ]

  -- Read line by line to its end, a file that does not grow gives its lines in order, whatever the
  -- chunks: the fuel of `reads` is enough.
  pub reads_lem : (r : Reader) → IsClean r → reads crates r ≡ reads_of (split_lines (data_of r))
  unfolding reads
  reads_lem r h = reads_in_clean (suc (size r)) r h (omega arith)
