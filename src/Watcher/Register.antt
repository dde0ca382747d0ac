-- ===== src/Watcher/Register.antt =====
-- src/logs/watcher.rs: registration, and the index of paths.
use witness.Prelude.{
  ℕ, ◌≡◌, refl, sym, ap, ◌∙◌, inl, inr, Option, none, some, Bool-cases, Option-cases,
}
use witness.Prelude.Str.{Bytes, eqb_iff}
use witness.Assoc.{
  Assoc, bytes_key, lookup, insert, remove, lookup-insert, same_refl, lookup-insert_cases,
  lookup-remove_cases, lookup-insert_other, lookup-remove_other,
}
use witness.Watcher.State.{FileId, same_id, same_id_iff, TailedFile}
use witness.Watcher.Identity.{FileSystem, Metadata, file_id_key}
use witness.Watcher.Registry.{
  SavedOffset, Registry, register_file, register_as, checkpoint_of, is_ignored, new_file, start_pos,
}
use witness.Watcher.Poll.{unlink}
use witness.Watcher.Index.{
  IsIndexed, none_ne, some_inj, unlink_cases, false-true, set_file-IsIndexed,
}

add_file-IsIndexed :
    (r : Registry) (path : Bytes) (t : TailedFile)
    → IsIndexed r
    → lookup t.id r.files ≡ none
    → t.path ≡ path
    → IsIndexed (record { files = insert t.id t r.files; index = insert path t.id r.index })
add_file-IsIndexed r path t x absent at = record {
  keyed = λ j u e. elim (lookup-insert_cases t.id j t r.files e) [
    | inl (same, is) ↦ ap (λ v. v.id) (sym is) ∙ same
    | inr (other, e') ↦ x.keyed j u e'
  ];
  led = λ p j e. elim (lookup-insert_cases path p t.id r.index e) [
    | inl (same, is) ↦ (
      t,
      ap (λ k. lookup k (insert t.id t r.files)) (sym is)
          ∙ lookup-insert t.id t.id t r.files
          ∙ rw (same_refl t.id),
      at ∙ same,
    )
    | inr (other, e') ↦
        let (u, found, there) = x.led p j e' in
        elim (Bool-cases (same_id t.id j)) [
          | inr apart ↦ (u, lookup-insert_other t.id j t r.files apart ∙ found, there)
          | inl same ↦ absurd (
              none_ne u
                (sym absent ∙ ap (λ k. lookup k r.files) ((same_id_iff t.id j).0 same) ∙ found))
        ]
  ];
}

register_as-IsIndexed :
    (fs : FileSystem) (meta : Metadata) (checkpoint initial_pos : Option ℕ) (path : Bytes)
    (r : Registry)
    → IsIndexed r
    → IsIndexed (register_as fs meta checkpoint initial_pos path r)
unfolding register_as
register_as-IsIndexed fs meta checkpoint initial_pos path r x =
    elim (Option-cases (lookup meta.id r.files)) [
      | inr (t, e) ↦ rw (e, register_as) x
      | inl e ↦ elim (Bool-cases (is_ignored initial_pos checkpoint meta.age)) [
        | inl old ↦ rw (e, old, register_as) x
        | inr fresh ↦
            rw (e, fresh, register_as)
              (add_file-IsIndexed r path
                (new_file fs path meta.id (start_pos initial_pos checkpoint meta.len)) x e refl)
      ]
    ]

-- Registering a path keeps the registry in order: every file under its own identity, and every path
-- in the index leading to a file that is tracked at that path.
pub register_file-IsIndexed :
    (fs : FileSystem) (saved : Assoc Bytes SavedOffset) (initial_pos : Option ℕ) (path : Bytes)
    (r : Registry)
    → IsIndexed r
    → IsIndexed (register_file fs saved initial_pos path r)
unfolding register_file
register_file-IsIndexed fs saved initial_pos path r x = elim (Option-cases (fs.metadata path)) [
  | inl e ↦ rw (e, register_file) x
  | inr (meta, e) ↦
      rw (e, register_file)
        (register_as-IsIndexed fs meta (checkpoint_of saved path meta.id) initial_pos path r x)
]

-- A file that was rotated away keeps its entry and loses its path.
pub rotate-IsIndexed :
    (r : Registry) (id : FileId) (t t' : TailedFile)
    → IsIndexed r
    → lookup id r.files ≡ some t
    → t'.path ≡ t.path
    → t'.id ≡ t.id
    → IsIndexed (record { files = insert id t' r.files; index = unlink t'.path id r.index })
rotate-IsIndexed r id t t' x here same_path same =
    let kept = set_file-IsIndexed r id t t' x here same_path same in
    record {
      keyed = kept.keyed;
      led = λ p j e. kept.led p j (unlink_cases t'.path p id j r.index e).0;
    }

-- A file whose old contents are lost goes with its path.
pub lose-IsIndexed :
    (r : Registry) (id : FileId) (t t' : TailedFile)
    → IsIndexed r
    → lookup id r.files ≡ some t
    → t'.path ≡ t.path
    → IsIndexed (record { files = remove id r.files; index = remove t'.path r.index })
lose-IsIndexed r id t t' x here same_path = record {
  keyed = λ j u e. x.keyed j u (lookup-remove_cases id j r.files e).1;
  led = λ p j e.
      let (apart, e') = lookup-remove_cases t'.path p r.index e in
      let (u, found, at) = x.led p j e' in
      elim (Bool-cases (same_id id j)) [
        | inr other ↦ (u, lookup-remove_other id j r.files other ∙ found, at)
        | inl same_j ↦
            let is_id = (same_id_iff id j).0 same_j in
            let is_t = some_inj t u (sym here ∙ ap (λ k. lookup k r.files) is_id ∙ found) in
            absurd (
              false-true
                (sym apart ∙ (eqb_iff t'.path p).1 (same_path ∙ ap (λ v. v.path) is_t ∙ at)))
      ];
}
