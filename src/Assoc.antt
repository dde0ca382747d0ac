-- ===== src/Assoc.antt =====
-- `HashMap` as an association list: the source relies on no order of its iteration.
use witness.Prelude.{
  ◌≡◌, refl, sym, ◌∙◌, ◌↔◌, ◌⊎◌, inl, inr, Bool, true, false, Option, none, some, List, [], ◌∷◌,
  map, arith, if◌then◌else◌, Bool-cases, is_some,
}
use witness.Prelude.Str.{Bytes, eqb, eqb_iff}

pub record Key {ℓ} (K : Type ℓ) : Type ℓ where
  pub same : K → K → Bool
  pub same_iff : (a b : K) → (same a b ≡ true) ↔ (a ≡ b)

instance abbrev pub bytes_key : Key Bytes
bytes_key = record { same = eqb; same_iff = eqb_iff }

abbrev pub Assoc {ℓ κ} : Type ℓ → Type κ → Type (ℓ ⊔ κ)
Assoc K V = List (K × V)

pub same_refl {ℓ} : {K : Type ℓ} ⦃key : Key K⦄ (k : K) → key.same k k ≡ true
same_refl ⦃key⦄ k = (key.same_iff k k).1 refl

module _ {ℓ κ} {K : Type ℓ} {V : Type κ} ⦃key : Key K⦄ where
  unfoldable pub lookup : K → Assoc K V → Option V
  lookup k [] = none
  lookup k ((j, v) ∷ m) = if key.same j k then some v else lookup k m

  unfoldable pub remove : K → Assoc K V → Assoc K V
  remove k [] = []
  remove k ((j, v) ∷ m) = if key.same j k then remove k m else (j, v) ∷ remove k m

  unfoldable pub insert : K → V → Assoc K V → Assoc K V
  unfolding remove
  insert k v m = (k, v) ∷ remove k m

  abbrev pub contains : K → Assoc K V → Bool
  contains k m = is_some (lookup k m)

  abbrev pub keys : Assoc K V → List K
  keys m = map (λ e. e.0) m

  pub lookup-remove :
      (k j : K) (m : Assoc K V)
      → lookup j (remove k m) ≡ (if key.same k j then none else lookup j m)
  unfolding lookup remove
  lookup-remove k j [] = ground arith
  lookup-remove k j ((i, v) ∷ m) =
      ground (arith, key.same_iff i k, key.same_iff k j, key.same_iff i j, lookup-remove k j m)

  pub lookup-insert :
      (k j : K) (v : V) (m : Assoc K V)
      → lookup j (insert k v m) ≡ (if key.same k j then some v else lookup j m)
  unfolding insert lookup
  lookup-insert k j v m = inserted (key.same k j) (lookup-remove k j m)
    where
      inserted :
          (b : Bool)
          → lookup j (remove k m) ≡ (if b then none else lookup j m)
          → (if b then some v else lookup j (remove k m)) ≡ (if b then some v else lookup j m)
      inserted true e = refl
      inserted false e = e

none_ne {ℓ} : {A : Type ℓ} (w : A) → none ≡ some w → ⊥
none_ne w e = cc

some_inj {ℓ} : {A : Type ℓ} (a b : A) → some a ≡ some b → a ≡ b
some_inj a b e = cc

-- The two cases of a lookup behind an insertion.
pub lookup-insert_cases {ℓ κ} :
    {K : Type ℓ} {V : Type κ} ⦃key : Key K⦄ (k j : K) (v : V) {w : V} (m : Assoc K V)
    → lookup j (insert k v m) ≡ some w
    → ((k ≡ j) × (v ≡ w)) ⊎ ((key.same k j ≡ false) × (lookup j m ≡ some w))
lookup-insert_cases ⦃key⦄ k j v m e = elim (Bool-cases (key.same k j)) [
  | inl same ↦
      inl ((key.same_iff k j).0 same, some_inj v _ (sym (lookup-insert k j v m ∙ rw same) ∙ e))
  | inr other ↦ inr (other, sym (lookup-insert k j v m ∙ rw other) ∙ e)
]

pub lookup-remove_cases {ℓ κ} :
    {K : Type ℓ} {V : Type κ} ⦃key : Key K⦄ (k j : K) {w : V} (m : Assoc K V)
    → lookup j (remove k m) ≡ some w
    → (key.same k j ≡ false) × (lookup j m ≡ some w)
lookup-remove_cases ⦃key⦄ k j m e = elim (Bool-cases (key.same k j)) [
  | inl same ↦ absurd (none_ne _ (sym (lookup-remove k j m ∙ rw same) ∙ e))
  | inr other ↦ (other, sym (lookup-remove k j m ∙ rw other) ∙ e)
]

pub lookup-insert_other {ℓ κ} :
    {K : Type ℓ} {V : Type κ} ⦃key : Key K⦄ (k j : K) (v : V) (m : Assoc K V)
    → key.same k j ≡ false
    → lookup j (insert k v m) ≡ lookup j m
lookup-insert_other k j v m h = lookup-insert k j v m ∙ rw h

pub lookup-remove_other {ℓ κ} :
    {K : Type ℓ} {V : Type κ} ⦃key : Key K⦄ (k j : K) (m : Assoc K V)
    → key.same k j ≡ false
    → lookup j (remove k m) ≡ lookup j m
lookup-remove_other k j m h = lookup-remove k j m ∙ rw h
