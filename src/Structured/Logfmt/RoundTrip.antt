-- ===== src/Structured/Logfmt/RoundTrip.antt =====
-- src/logs/structured.rs: fields written in logfmt.
use witness.Prelude.{
  ℕ, zero, suc, ◌≤◌, ◌<◌, ◌≡◌, refl, ap, ◌∙◌, ◌≢◌, Bool, true, false, ◌&&◌, ◌||◌, some, List, [],
  ◌∷◌, ◌++◌, arith, ◌==◌, if◌then◌else◌, length, all, All, length-append,
}
use witness.Prelude.Str.{Bytes}
use witness.Std.Scan.{span_exact, skip_while}
use witness.Structured.Logfmt.{
  is_logfmt_key_byte, quoted, value, field_behind, field, is_space, with_field, fields_at,
  parse_fields, parse_logfmt_fields,
}

-- A quoted value's text, escaped as the parser reads it.
abbrev pub escape_byte : ℕ → Bytes
escape_byte c =
    if c == b'"' || c == b'\\'
    then b'\\' ∷ c ∷ []
    else if c == b'\n'
    then b'\\' ∷ b'n' ∷ []
    else c ∷ []

abbrev pub escaped : Bytes → Bytes → Bytes
escaped [] rest = rest
escaped (c ∷ cs) rest = escape_byte c ++ escaped cs rest

-- ` key="value"` in front of what follows.
abbrev pub render_field : Bytes × Bytes → Bytes → Bytes
render_field (k, v) rest = b' ' ∷ (k ++ (b'=' ∷ b'"' ∷ escaped v (b'"' ∷ rest)))

abbrev pub render : List (Bytes × Bytes) → Bytes
render [] = []
render (f ∷ fs) = render_field f (render fs)

-- A key has a byte at least, and only bytes of a key.
abbrev pub IsKey : Bytes × Bytes → Type 0
IsKey (k, v) = (k ≢ []) × (all is_logfmt_key_byte k ≡ true)

quoted_close : (rest : Bytes) → quoted (b'"' ∷ rest) ≡ ([], rest)
unfolding quoted
quoted_close [] = refl
quoted_close (d ∷ r) = refl

quoted-escape_byte :
    (c d : ℕ) (t : Bytes)
    → quoted (escape_byte c ++ (d ∷ t)) ≡ (c ∷ (quoted (d ∷ t)).0, (quoted (d ∷ t)).1)
unfolding quoted
quoted-escape_byte c d t = ground arith

quoted-escape_byte_ne :
    (c : ℕ) (s : Bytes) → s ≢ [] → quoted (escape_byte c ++ s) ≡ (c ∷ (quoted s).0, (quoted s).1)
quoted-escape_byte_ne c [] h = absurd (h refl)
quoted-escape_byte_ne c (d ∷ t) h = quoted-escape_byte c d t

escape_byte-ne : (c : ℕ) (s : Bytes) → escape_byte c ++ s ≢ []
escape_byte-ne c s h = ground arith

escaped-ne : (v rest : Bytes) → escaped v (b'"' ∷ rest) ≢ []
escaped-ne [] rest h = cc
escaped-ne (c ∷ cs) rest h = escape_byte-ne c (escaped cs (b'"' ∷ rest)) h

quoted-escaped : (v rest : Bytes) → quoted (escaped v (b'"' ∷ rest)) ≡ (v, rest)
quoted-escaped [] rest = quoted_close rest
quoted-escaped (c ∷ cs) rest =
    quoted-escape_byte_ne c (escaped cs (b'"' ∷ rest)) (escaped-ne cs rest)
    ∙ ap (λ r. (c ∷ r.0, r.1)) (quoted-escaped cs rest)

value_quoted : (v rest : Bytes) → value (b'"' ∷ escaped v (b'"' ∷ rest)) ≡ (v, rest)
unfolding value
value_quoted v rest = quoted-escaped v rest

pub equals_stops : is_logfmt_key_byte b'=' ≡ false
unfolding is_logfmt_key_byte
equals_stops = refl

field_behind_value :
    (c : ℕ) (cs r : Bytes) {v rest : Bytes}
    → value r ≡ (v, rest)
    → field_behind (c ∷ cs) (b'=' ∷ r) ≡ (some (c ∷ cs, v), rest)
unfolding field_behind
field_behind_value c cs r e = ap (λ x. (some (c ∷ cs, x.0), x.1)) e

-- A field, read behind the space.
field_quoted :
    (c : ℕ) (cs v rest : Bytes)
    → all is_logfmt_key_byte (c ∷ cs) ≡ true
    → field (c ∷ (cs ++ (b'=' ∷ b'"' ∷ escaped v (b'"' ∷ rest)))) ≡ (some (c ∷ cs, v), rest)
unfolding field
field_quoted c cs v rest h =
    let tail = b'=' ∷ b'"' ∷ escaped v (b'"' ∷ rest) in
    ap (λ x. field_behind x.0 x.1) (span_exact is_logfmt_key_byte (c ∷ cs) tail h equals_stops)
    ∙ field_behind_value c cs (b'"' ∷ escaped v (b'"' ∷ rest)) (value_quoted v rest)

pub key_not_space : (c : ℕ) (b : Bool) → is_logfmt_key_byte c && b ≡ true → is_space c ≡ false
unfolding is_logfmt_key_byte
key_not_space c b h = ground arith

skip_one : (c : ℕ) (s : Bytes) → is_space c ≡ false → skip_while is_space (b' ' ∷ c ∷ s) ≡ c ∷ s
unfolding skip_while
skip_one c s h = rw h

fields_at_one :
    (more : Bytes → List (Bytes × Bytes)) (c : ℕ) (cs v rest : Bytes)
    → all is_logfmt_key_byte (c ∷ cs) ≡ true
    → fields_at more (c ∷ (cs ++ (b'=' ∷ b'"' ∷ escaped v (b'"' ∷ rest)))) ≡ (c ∷ cs, v) ∷ more rest
unfolding fields_at
fields_at_one more c cs v rest h = ap (λ x. with_field x.0 (more x.1)) (field_quoted c cs v rest h)

parse_fields_none : (fuel : ℕ) → parse_fields (suc fuel) [] ≡ []
unfolding parse_fields fields_at skip_while
parse_fields_none fuel = refl

parse_fields_one :
    (fuel : ℕ) (k v rest : Bytes)
    → IsKey (k, v)
    → parse_fields (suc fuel) (render_field (k, v) rest) ≡ (k, v) ∷ parse_fields fuel rest
unfolding parse_fields
parse_fields_one fuel [] v rest h = absurd (h.0 refl)
parse_fields_one fuel (c ∷ cs) v rest h =
    let plain = key_not_space c (all is_logfmt_key_byte cs) h.1 in
    ap (fields_at (parse_fields fuel))
      (skip_one c (cs ++ (b'=' ∷ b'"' ∷ escaped v (b'"' ∷ rest))) plain)
    ∙ fields_at_one (parse_fields fuel) c cs v rest h.1

length-escaped : (v rest : Bytes) → length rest ≤ length (escaped v rest)
length-escaped [] rest = omega arith
length-escaped (c ∷ cs) rest =
    omega (arith, length-escaped cs rest, length-append {0} (escape_byte c) (escaped cs rest))

length-render_field :
    (f : Bytes × Bytes) (rest : Bytes) → length rest < length (render_field f rest)
length-render_field (k, v) rest = omega (
  arith,
  length-escaped v (b'"' ∷ rest),
  length-append {0} k (b'=' ∷ b'"' ∷ escaped v (b'"' ∷ rest)),
)

parse_fields-render :
    (fuel : ℕ) (fs : List (Bytes × Bytes))
    → All IsKey fs
    → length (render fs) < fuel
    → parse_fields fuel (render fs) ≡ fs
parse_fields-render zero fs h less = elim less [ ]
parse_fields-render (suc fuel) [] h less = parse_fields_none fuel
parse_fields-render (suc fuel) ((k, v) ∷ fs) h less =
    parse_fields_one fuel k v (render fs) h.0
    ∙ ap (λ r. (k, v) ∷ r)
        (parse_fields-render fuel fs h.1 (omega (arith, length-render_field (k, v) (render fs))))

-- The parser reads back every list of fields, whatever text the values hold, if the keys consist of
-- key bytes and the values are written quoted, with `\"`, `\\` and `\n` for what must be escaped.
pub parse_logfmt_fields-render :
    (fs : List (Bytes × Bytes)) → All IsKey fs → parse_logfmt_fields (render fs) ≡ fs
unfolding parse_logfmt_fields
parse_logfmt_fields-render fs h = parse_fields-render (suc (length (render fs))) fs h (omega arith)
