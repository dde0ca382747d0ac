-- ===== src/Utf8/Laws.antt =====
-- The laws of lossy decoding and of truncation at a character boundary.
use witness.Prelude.{
  ℕ, zero, suc, ◌≤◌, ◌≡◌, refl, sym, ap, ◌∙◌, inl, inr, Bool, true, false, not, ◌&&◌, Option, none,
  some, [], ◌∷◌, ◌++◌, append-nil, append_assoc, arith, ltb, leb, Bool-cases, length,
  length-take-le,
}
use witness.Prelude.Str.{Bytes, within}
use witness.Utf8.{
  Decode, between, inside, lead, begin, lead_or, resume, decode_byte, lossy_from, valid_from,
  from_utf8_lossy, is_utf8, boundary_below, floor_char_boundary, truncate_to,
}

abbrev seen_of : Decode → Bytes
seen_of between = []
seen_of (inside _ _ _ seen) = seen

lead_or_kept :
    (c : ℕ) (o : Option (ℕ × ℕ × ℕ))
    → (lead_or c o).1 ≡ false
    → c ∷ [] ≡ (lead_or c o).0 ++ seen_of (lead_or c o).2
lead_or_kept c none h = cc
lead_or_kept c (some (n, lo, hi)) h = refl

begin_kept : (c : ℕ) → (begin c).1 ≡ false → c ∷ [] ≡ (begin c).0 ++ seen_of (begin c).2
unfolding begin
begin_kept c = elim (Bool-cases (ltb c 0x80)) [
  | inl low ↦ rw (low, begin) (λ h. refl)
  | inr high ↦ rw (high, begin) (lead_or_kept c (lead c))
]

resume_kept :
    (b l : Bool) (n : ℕ) (seen : Bytes) (c : ℕ)
    → (resume b l n seen c).1 ≡ false
    → seen ++ c ∷ [] ≡ (resume b l n seen c).0 ++ seen_of (resume b l n seen c).2
unfolding resume
resume_kept false l n seen c h = cc
resume_kept true true n seen c h = sym (append-nil (seen ++ c ∷ []))
resume_kept true false n seen c h = refl

decode_byte_kept :
    (d : Decode) (c : ℕ)
    → (decode_byte d c).1 ≡ false
    → seen_of d ++ c ∷ [] ≡ (decode_byte d c).0 ++ seen_of (decode_byte d c).2
unfolding decode_byte
decode_byte_kept between c h = begin_kept c h
decode_byte_kept (inside n lo hi seen) c h = resume_kept (within lo hi c) (leb n 1) n seen c h

split_and : (b : Bool) {c : Bool} → not b && c ≡ true → (b ≡ false) × (c ≡ true)
split_and b h = ground arith

lossy_from_valid :
    (d : Decode) (s : Bytes) → valid_from d s ≡ true → lossy_from d s ≡ seen_of d ++ s
unfolding lossy_from valid_from
lossy_from_valid between [] h = refl
lossy_from_valid (inside _ _ _ _) [] h = cc
lossy_from_valid d (c ∷ cs) h =
    let (kept, ok) = split_and (decode_byte d c).1 h in
    rw (lossy_from_valid (decode_byte d c).2 cs ok) (
      sym (append_assoc (decode_byte d c).0 (seen_of (decode_byte d c).2) cs)
      ∙ ap (λ x. x ++ cs) (sym (decode_byte_kept d c kept))
      ∙ append_assoc (seen_of d) (c ∷ []) cs)

-- Valid UTF-8 is decoded to itself.
pub from_utf8_lossy_valid : (s : Bytes) → is_utf8 s ≡ true → from_utf8_lossy s ≡ s
unfolding from_utf8_lossy is_utf8
from_utf8_lossy_valid s h = lossy_from_valid Decode.between s h

pub boundary_below-le : (s : Bytes) (i : ℕ) → boundary_below s i ≤ i
unfolding boundary_below
boundary_below-le s zero = omega arith
boundary_below-le s (suc i) = ground (arith, boundary_below-le s i)

pub length-truncate_to-le : (limit : ℕ) (s : Bytes) → length (truncate_to limit s) ≤ limit
unfolding truncate_to floor_char_boundary
length-truncate_to-le limit s =
    ground (arith, boundary_below-le s limit, length-take-le (boundary_below s limit) s)
