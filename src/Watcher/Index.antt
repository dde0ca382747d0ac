-- ===== src/Watcher/Index.antt =====
-- src/logs/watcher.rs: the index of paths and the files that it leads to.
use witness.Prelude.{
  ◌≡◌, refl, sym, ap, ◌∙◌, inl, inr, true, false, Option, none, some, if◌then◌else◌, Bool-cases,
}
use witness.Prelude.Str.{Bytes, eqb_iff}
use witness.Assoc.{
  Assoc, bytes_key, lookup, insert, remove, lookup-insert, lookup-insert_cases, lookup-remove_cases,
  lookup-insert_other, lookup-remove_other,
}
use witness.Watcher.State.{FileId, same_id, same_id_iff, TailedFile}
use witness.Watcher.Identity.{file_id_key}
use witness.Watcher.Registry.{Registry}
use witness.Watcher.Poll.{unlink}

-- Every file is kept under its own identity, and every path in the index leads to a file that is
-- tracked under that path.
pub record IsIndexed (r : Registry) : Type 0 where
  pub keyed : (id : FileId) (t : TailedFile) → lookup id r.files ≡ some t → t.id ≡ id
  pub led :
      (p : Bytes) (id : FileId)
      → lookup p r.index ≡ some id
      → (t : TailedFile) × (lookup id r.files ≡ some t) × (t.path ≡ p)

pub none_ne : {A : Type 0} (w : A) → none ≡ some w → ⊥
none_ne w e = cc

pub some_inj : {A : Type 0} (a b : A) → some a ≡ some b → a ≡ b
some_inj a b e = cc

pub false-true : false ≡ true → ⊥
false-true e = cc

-- A file is changed, and stays at its path.
pub set_file-IsIndexed :
    (r : Registry) (id : FileId) (t t' : TailedFile)
    → IsIndexed r
    → lookup id r.files ≡ some t
    → t'.path ≡ t.path
    → t'.id ≡ t.id
    → IsIndexed (record r { files = insert id t' r.files })
set_file-IsIndexed r id t t' x here same_path same = record {
  keyed = λ j u e. elim (lookup-insert_cases id j t' r.files e) [
    | inl (at, is) ↦ ap (λ v. v.id) (sym is) ∙ same ∙ x.keyed id t here ∙ at
    | inr (other, e') ↦ x.keyed j u e'
  ];
  led = λ p j e.
      let (u, found, at) = x.led p j e in
      elim (Bool-cases (same_id id j)) [
        | inr other ↦ (u, lookup-insert_other id j t' r.files other ∙ found, at)
        | inl same_j ↦
            let is_id = (same_id_iff id j).0 same_j in
            let is_t = some_inj t u (sym here ∙ ap (λ k. lookup k r.files) is_id ∙ found) in
            (t', lookup-insert id j t' r.files ∙ rw same_j, same_path ∙ ap (λ v. v.path) is_t ∙ at)
      ];
}

-- What is left in the index behind an unlinking was there before, and is not the link.
pub unlink_cases :
    (path p : Bytes) (id j : FileId) (index : Assoc Bytes FileId)
    → lookup p (unlink path id index) ≡ some j
    → (lookup p index ≡ some j) × (p ≡ path → j ≡ id → ⊥)
unfolding unlink
unlink_cases path p id j index e = by_link (lookup path index) refl e
  where
    by_link :
        (o : Option FileId)
        → lookup path index ≡ o
        → lookup p
            (elim o [ none ↦ index | some k ↦ if same_id k id then remove path index else index ])
          ≡ some j
        → (lookup p index ≡ some j) × (p ≡ path → j ≡ id → ⊥)
    by_link none h e = (e, λ at is. none_ne j (sym h ∙ ap (λ q. lookup q index) (sym at) ∙ e))
    by_link (some k) h e = elim (Bool-cases (same_id k id)) [
      | inl yes_same ↦
          let (other, e') = lookup-remove_cases path p index (rw yes_same at e) in
          (e', λ at is. false-true (sym other ∙ (eqb_iff path p).1 (sym at)))
      | inr not_same ↦
          let e' : lookup p index ≡ some j = rw not_same at e in
          (
            e',
            λ at is. false-true (
                sym not_same
                ∙ (same_id_iff k id).1
                    (some_inj k j (sym h ∙ ap (λ q. lookup q index) (sym at) ∙ e') ∙ is)),
          )
    ]

-- A file is dropped, with its link.
pub drop-IsIndexed :
    (r : Registry) (id : FileId) (t t' : TailedFile)
    → IsIndexed r
    → lookup id r.files ≡ some t
    → t'.path ≡ t.path
    → t'.id ≡ t.id
    → IsIndexed (record { files = remove id r.files; index = unlink t'.path t'.id r.index })
drop-IsIndexed r id t t' x here same_path same = record {
  keyed = λ j u e. x.keyed j u (lookup-remove_cases id j r.files e).1;
  led = λ p j e.
      let (e', apart) = unlink_cases t'.path p t'.id j r.index e in
      let (u, found, at) = x.led p j e' in
      elim (Bool-cases (same_id id j)) [
        | inr other ↦ (u, lookup-remove_other id j r.files other ∙ found, at)
        | inl same_j ↦
            let is_id = (same_id_iff id j).0 same_j in
            let is_t = some_inj t u (sym here ∙ ap (λ k. lookup k r.files) is_id ∙ found) in
            absurd (
              apart (sym at ∙ ap (λ v. v.path) (sym is_t) ∙ sym same_path)
                (sym is_id ∙ sym (x.keyed id t here) ∙ sym same))
      ];
}
