-- ===== src/Sink/Tags.antt =====
-- src/sink.rs: the tags of the configuration, and the table of the strings that are leaked for them.
use witness.Prelude.{
  ◌≡◌, refl, sym, subst, inl, inr, Bool, true, false, ◌&&◌, ◌||◌, List, [], ◌∷◌, ltb, ◌==◌,
  if◌then◌else◌, Bool-cases, any, All,
}
use witness.Prelude.Str.{Bytes, eqb, eqb_refl}
use witness.Sink.Labels.{Label}
use mathlib.Core.List.{Memᴰ}
use mathlib.Core.List.Memᴰ.{head, tail}

abbrev is_in : Bytes → List Bytes → Bool
is_in s table = any (λ t. eqb t s) table

-- The table behind `intern`; the text itself is what it returns.
unfoldable pub intern : Bytes → List Bytes → List Bytes
unfolding eqb
intern s table = if is_in s table then table else s ∷ table

unfoldable pub intern_all : List Label → List Bytes → List Bytes
unfolding intern
intern_all [] table = table
intern_all ((k, v) ∷ tags) table = intern_all tags (intern v (intern k table))

-- The order of strings, which is that of their bytes.
abbrev pub bytes_leb : Bytes → Bytes → Bool
bytes_leb [] b = true
bytes_leb (x ∷ xs) [] = false
bytes_leb (x ∷ xs) (y ∷ ys) = ltb x y || (x == y && bytes_leb xs ys)

unfoldable pub place_tag : Label → List Label → List Label
place_tag l [] = l ∷ []
place_tag (k, v) ((j, w) ∷ ls) =
    if bytes_leb k j then (k, v) ∷ (j, w) ∷ ls else (j, w) ∷ place_tag (k, v) ls

unfoldable pub sort_tags : List Label → List Label
unfolding place_tag
sort_tags [] = []
sort_tags (l ∷ ls) = place_tag l (sort_tags ls)

-- `tags` are the entries of the `HashMap` in the order of its iteration.
unfoldable pub leak_tags : List Label → List Bytes → List Label × List Bytes
unfolding sort_tags intern_all
leak_tags tags table = (sort_tags tags, intern_all tags table)

abbrev Interned : List Bytes → Label → Type 0
Interned table l = (is_in l.0 table ≡ true) × (is_in l.1 table ≡ true)

intern-Interned : (s : Bytes) (table : List Bytes) → is_in s (intern s table) ≡ true
unfolding intern
intern-Interned s table = elim (Bool-cases (is_in s table)) [
  | inl y ↦ rw (y, y) refl
  | inr n ↦ rw (n, eqb_refl s) refl
]

intern_keeps :
    (s t : Bytes) (table : List Bytes) → is_in s table ≡ true → is_in s (intern t table) ≡ true
unfolding intern
intern_keeps s t table h = elim (Bool-cases (is_in t table)) [
  | inl y ↦ rw (y, h) refl
  | inr n ↦ rw n (either (eqb t s))
]
  where
    either : (b : Bool) → (b || is_in s table) ≡ true
    either true = refl
    either false = h

intern_all_keeps :
    (s : Bytes) (tags : List Label) (table : List Bytes)
    → is_in s table ≡ true
    → is_in s (intern_all tags table) ≡ true
unfolding intern_all
intern_all_keeps s [] table h = h
intern_all_keeps s ((k, v) ∷ tags) table h =
    intern_all_keeps s tags (intern v (intern k table))
      (intern_keeps s v (intern k table) (intern_keeps s k table h))

intern_all-Interned :
    (tags : List Label) (table : List Bytes) → All (Interned (intern_all tags table)) tags
unfolding intern_all
intern_all-Interned [] table = tt
intern_all-Interned ((k, v) ∷ tags) table =
    let t = intern v (intern k table) in
    (
      (
        intern_all_keeps k tags t (intern_keeps k v (intern k table) (intern-Interned k table)),
        intern_all_keeps v tags t (intern-Interned v (intern k table)),
      ),
      intern_all-Interned tags t,
    )

intern_all_same :
    (tags : List Label) (table : List Bytes)
    → All (Interned table) tags
    → intern_all tags table ≡ table
unfolding intern_all intern
intern_all_same [] table h = refl
intern_all_same ((k, v) ∷ tags) table h = rw (h.0.0, h.0.1) (intern_all_same tags table h.1)

Mem-All : {A : Type 0} (P : A → Type 0) (x : A) (xs : List A) → Memᴰ x xs → All P xs → P x
Mem-All P x [] m h = elim m [ ]
Mem-All P x (y ∷ ys) (head e) h = subst P (sym e) h.0
Mem-All P x (y ∷ ys) (tail m) h = Mem-All P x ys m h.1

All-Interned :
    (table : List Bytes) (tags reloaded : List Label)
    → All (Interned table) tags
    → All (λ l. Memᴰ l tags) reloaded
    → All (Interned table) reloaded
All-Interned table tags [] h m = tt
All-Interned table tags (l ∷ ls) h m =
    (Mem-All (Interned table) l tags m.0 h, All-Interned table tags ls h m.1)

-- A reload with tags that were there before, in whatever order they come, leaks no string.
pub leak_tags_again :
    (tags reloaded : List Label) (table : List Bytes)
    → All (λ l. Memᴰ l tags) reloaded
    → (leak_tags reloaded (leak_tags tags table).1).1 ≡ (leak_tags tags table).1
unfolding leak_tags
leak_tags_again tags reloaded table m =
    let leaked = intern_all tags table in
    intern_all_same reloaded leaked
      (All-Interned leaked tags reloaded (intern_all-Interned tags table) m)
