-- ===== src/Structured/Logfmt.antt =====
-- src/logs/structured.rs: the logfmt tail of a message.
pub mod Fuel
pub mod RoundTrip
pub mod Start
use witness.Prelude.{
  length, ℕ, zero, suc, ◌-◌, Bool, true, false, not, ◌&&◌, ◌||◌, Option, none, some, List, [], ◌∷◌,
  ltb, ◌==◌, if◌then◌else◌, option_or, get_elem?,
}
use witness.Prelude.Str.{Bytes, is_ascii_alphanumeric}
use witness.Std.Scan.{span, skip_while}
use witness.Crates.{Crates}

unfoldable pub is_logfmt_key_byte : ℕ → Bool
is_logfmt_key_byte b = is_ascii_alphanumeric b || b == b'_' || b == b'-' || b == b'.'

abbrev pub byte_at : Bytes → ℕ → ℕ
byte_at s i = option_or (get_elem? s i) 0

-- The inner loop: back over the key that ends before `k`.
unfoldable pub key_start : Bytes → ℕ → ℕ
unfolding is_logfmt_key_byte
key_start s zero = zero
key_start s (suc k) = elim (is_logfmt_key_byte (byte_at s k)) [
  | true ↦ key_start s k
  | false ↦ suc k
]

-- A field whose `=` stands at `eq`: the space before it.
unfoldable pub field_space : Bytes → ℕ → Option ℕ
unfolding key_start
field_space s eq =
    let k = key_start s eq in
    if ltb k eq && ltb 0 k && byte_at s (k - 1) == b' ' then some (k - 1) else none

unfoldable pub first_field : Bytes → List ℕ → Option ℕ
unfolding field_space
first_field s [] = none
first_field s (eq ∷ eqs) = elim (field_space s eq) [ some i ↦ some i | none ↦ first_field s eqs ]

module _ (crates : Crates) where
  unfoldable pub logfmt_field_start : Bytes → Option ℕ
  unfolding first_field
  logfmt_field_start s = first_field s (crates.memchr_iter b'=' s)

-- A quoted value behind its opening quote: what it stands for, and what is left behind the closing
-- one. An unknown escape keeps its backslash.
unfoldable pub quoted : Bytes → Bytes × Bytes
quoted [] = ([], [])
quoted (c ∷ []) = if c == b'"' then ([], []) else (c ∷ [], [])
quoted (c ∷ d ∷ r) = elim (c == b'"') [
  | true ↦ ([], d ∷ r)
  | false ↦ elim (c == b'\\' && (d == b'"' || d == b'\\' || d == b'n')) [
    | true ↦ let (v, rest) = quoted r in ((if d == b'n' then b'\n' else d) ∷ v, rest)
    | false ↦ let (v, rest) = quoted (d ∷ r) in (c ∷ v, rest)
  ]
]

abbrev pub not_space : ℕ → Bool
not_space c = not (c == b' ')

-- A value: quoted, or bare up to the next space.
unfoldable pub value : Bytes → Bytes × Bytes
unfolding quoted span
value [] = ([], [])
value (c ∷ cs) = elim (c == b'"') [ true ↦ quoted cs | false ↦ span not_space (c ∷ cs) ]

-- The key that was read, and what stands at its end: a field if that is a `=`; else the rest of
-- the word is malformed and skipped.
unfoldable pub field_behind : Bytes → Bytes → Option (Bytes × Bytes) × Bytes
unfolding skip_while value
field_behind key [] = (none, [])
field_behind [] (c ∷ cs) = (none, skip_while not_space (c ∷ cs))
field_behind (k ∷ ks) (c ∷ cs) = elim (c == b'=') [
  | true ↦ let (v, rest) = value cs in (some (k ∷ ks, v), rest)
  | false ↦ (none, skip_while not_space (c ∷ cs))
]

-- One round of the outer loop, at a byte that is no space.
unfoldable pub field : Bytes → Option (Bytes × Bytes) × Bytes
unfolding span is_logfmt_key_byte field_behind
field s = field_behind (span is_logfmt_key_byte s).0 (span is_logfmt_key_byte s).1

abbrev pub is_space : ℕ → Bool
is_space c = c == b' '

abbrev pub with_field : Option (Bytes × Bytes) → List (Bytes × Bytes) → List (Bytes × Bytes)
with_field none more = more
with_field (some kv) more = kv ∷ more

unfoldable pub fields_at : (Bytes → List (Bytes × Bytes)) → Bytes → List (Bytes × Bytes)
unfolding field
fields_at more [] = []
fields_at more (c ∷ cs) = with_field (field (c ∷ cs)).0 (more (field (c ∷ cs)).1)

-- The outer loop, on fuel: each round reads a byte at least.
unfoldable pub parse_fields : ℕ → Bytes → List (Bytes × Bytes)
unfolding fields_at skip_while
parse_fields zero s = []
parse_fields (suc fuel) s = fields_at (parse_fields fuel) (skip_while is_space s)

unfoldable pub parse_logfmt_fields : Bytes → List (Bytes × Bytes)
unfolding parse_fields
parse_logfmt_fields s = parse_fields (suc (length s)) s
