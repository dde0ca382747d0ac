-- ===== src/Json.antt =====
-- `serde_json::Map` as the sources build their payloads with it.
use witness.Prelude.{Option, none, some, [], ◌∷◌, ◌++◌, if◌then◌else◌, is_empty}
use witness.Prelude.Str.{Bytes}
use witness.Crates.{Crates}

module _ (crates : Crates) where
  open crates use {Value, Map, text_value, object_value, entries, collect, get}

  abbrev pub new_map : Map
  new_map = collect []

  unfoldable pub insert : Bytes → Value → Map → Map
  insert k v m = collect (entries m ++ (k, v) ∷ [])

  -- `entry(k).or_insert_with(v)`.
  unfoldable pub or_insert : Bytes → Value → Map → Map
  unfolding insert
  or_insert k v m = elim (get k m) [ some _ ↦ m | none ↦ insert k v m ]

  -- A text that is there and not empty.
  unfoldable pub insert_non_empty : Bytes → Bytes → Map → Map
  unfolding insert
  insert_non_empty k [] m = m
  insert_non_empty k (c ∷ cs) m = insert k (text_value (c ∷ cs)) m

  abbrev pub object_unless_empty : Map → Option Value
  object_unless_empty m = if is_empty (entries m) then none else some (object_value m)
