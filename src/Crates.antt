-- ===== src/Crates.antt =====
-- The third-party crates that the log pipeline calls, with what their documentation promises.
use witness.Prelude.{map, ℕ, suc, ◌≡◌, Bool, Option, none, some, List, [], ◌∷◌, ◌==◌, if◌then◌else◌}
use witness.Prelude.Str.{Bytes}
use witness.Utf8.{is_utf8}

abbrev pub option_suc : Option ℕ → Option ℕ
option_suc none = none
option_suc (some i) = some (suc i)

-- The index of the first byte that is `c`.
unfoldable pub position : ℕ → Bytes → Option ℕ
position c [] = none
position c (x ∷ xs) = if x == c then some 0 else option_suc (position c xs)

-- The indices of all of them, in order.
unfoldable pub positions : ℕ → Bytes → List ℕ
positions c [] = []
positions c (x ∷ xs) = if x == c then 0 ∷ map suc (positions c xs) else map suc (positions c xs)

-- A JSON value as `structured.rs` looks at it: a text, a number with its value as `u64` if it has
-- one, an object, or anything else.
pub data View (Map : Type 0) : Type 0 where
  text : Bytes → View Map
  number : Option ℕ → View Map
  object : Map → View Map
  other : View Map

-- memchr, simdutf8 and serde_json. `entries` is the order of `Map::iter`, and `collect` builds a map
-- from pairs, a later one in place of an earlier one with its key.
pub record Crates : Type 1 where
  pub memchr : ℕ → Bytes → Option ℕ
  pub memchr_first : (c : ℕ) (s : Bytes) → memchr c s ≡ position c s
  pub memchr_iter : ℕ → Bytes → List ℕ
  pub memchr_iter_all : (c : ℕ) (s : Bytes) → memchr_iter c s ≡ positions c s
  pub simd_utf8 : Bytes → Bool
  pub simd_utf8_valid : (s : Bytes) → simd_utf8 s ≡ is_utf8 s
  pub Value : Type 0
  pub Map : Type 0
  pub from_str : Bytes → Option Value
  pub to_string : Value → Bytes
  pub view : Value → View Map
  pub text_value : Bytes → Value
  pub object_value : Map → Value
  pub entries : Map → List (Bytes × Value)
  pub collect : List (Bytes × Value) → Map
  pub get : Bytes → Map → Option Value
  pub remove : Bytes → Map → Map
  pub view_text : (s : Bytes) → view (text_value s) ≡ text s
  pub view_object : (m : Map) → view (object_value m) ≡ object m
