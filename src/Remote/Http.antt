-- ===== src/Remote/Http.antt =====
-- src/remote_config.rs: the response that `curl -i` prints, and the hash of a configuration.
use witness.Prelude.{
  ℕ, zero, suc, ◌+◌, ◌-◌, ◌*◌, ◌/◌, ◌%◌, not, ◌||◌, Option, none, some, List, [], ◌∷◌, ltb,
  if◌then◌else◌, length, take, drop, is_empty,
}
use Prim.Native.Nat.{bit_xor}
use witness.Prelude.Str.{Bytes, codes, eq_ignore_ascii_case}
use witness.Utf8.{from_utf8_lossy, is_char_boundary}
use witness.Std.Number.{parse_uint, u64}
use witness.Std.Scan.{find}
use witness.Std.Split.{lines, split_whitespace}
use witness.Std.Trim.{trim}

abbrev fnv_step : ℕ → ℕ → ℕ
fnv_step hash b = (bit_xor hash b * 0x00000100000001b3) % u64

unfoldable pub fnv : ℕ → Bytes → ℕ
fnv hash [] = hash
fnv hash (b ∷ bs) = fnv (fnv_step hash b) bs

abbrev hex_char : ℕ → ℕ
hex_char d = if ltb d 10 then b'0' + d else b'a' + (d - 10)

-- The last digits of a number in hexadecimal, in front of a text.
unfoldable pub hex_onto : ℕ → ℕ → Bytes → Bytes
hex_onto zero n tail = tail
hex_onto (suc k) n tail = hex_onto k (n / 16) (hex_char (n % 16) ∷ tail)

-- `{:016x}`.
unfoldable pub config_hash : Bytes → Bytes
unfolding fnv hex_onto
config_hash bytes = hex_onto 16 (fnv 0xcbf29ce484222325 bytes) []

pub record HttpResponse : Type 0 where
  pub status : ℕ
  pub etag : Option Bytes
  pub body : Bytes

-- `panicked`: a text was cut within a character.
pub data Parsed : Type 0 where
  response : HttpResponse → Parsed
  unparseable panicked : Parsed

unfoldable pub find_subslice : Bytes → Bytes → Option ℕ
unfolding find
find_subslice haystack needle =
    if is_empty needle || ltb (length haystack) (length needle) then none else find needle haystack

abbrev second : List Bytes → Option Bytes
second (a ∷ b ∷ rest) = some b
second (a ∷ []) = none
second [] = none

unfoldable pub parse_status_code : Bytes → Option ℕ
unfolding split_whitespace parse_uint
parse_status_code status_line = elim (second (split_whitespace status_line)) [
  | none ↦ none
  | some code ↦ parse_uint 65536 code
]

-- The first header that is an `ETag`; the outer `none` is a panic at `l[..5]`.
unfoldable pub find_etag : List Bytes → Option (Option Bytes)
unfolding is_char_boundary eq_ignore_ascii_case trim
find_etag [] = some none
find_etag (l ∷ ls) =
    let rest = find_etag ls in
    if ltb (length l) 5
    then rest
    else if not (is_char_boundary l 5)
    then none
    else if eq_ignore_ascii_case (take 5 l) (codes "etag:")
    then some (some (trim (drop 5 l)))
    else rest

abbrev crlf_crlf : Bytes
crlf_crlf = b'\r' ∷ b'\n' ∷ b'\r' ∷ b'\n' ∷ []

abbrev with_length : ℕ → Option ℕ → Option (ℕ × ℕ)
with_length n none = none
with_length n (some i) = some (i, n)

abbrev or_boundary : Option (ℕ × ℕ) → Option (ℕ × ℕ) → Option (ℕ × ℕ)
or_boundary (some b) o = some b
or_boundary none o = o

-- Where the headers end, and how long the mark between them and the body is.
unfoldable pub boundary : Bytes → Option (ℕ × ℕ)
unfolding find_subslice
boundary raw =
    or_boundary (with_length 4 (find_subslice raw crlf_crlf))
      (with_length 2 (find_subslice raw (b'\n' ∷ b'\n' ∷ [])))

abbrev parsed_headers : Bytes → ℕ → Option (Option Bytes) → Parsed
parsed_headers body status none = panicked
parsed_headers body status (some etag) =
    response (record { status = status; etag = etag; body = body })

unfoldable pub parse_headers : List Bytes → Bytes → Parsed
unfolding parse_status_code find_etag
parse_headers [] body = unparseable
parse_headers (status_line ∷ headers) body = elim (parse_status_code status_line) [
  | none ↦ unparseable
  | some status ↦ parsed_headers body status (find_etag headers)
]

unfoldable pub parse_http_response : Bytes → Parsed
unfolding boundary parse_headers from_utf8_lossy lines
parse_http_response raw = elim (boundary raw) [
  | none ↦ unparseable
  | some (hdr_end, sep_len) ↦
      parse_headers (lines (from_utf8_lossy (take hdr_end raw))) (drop (hdr_end + sep_len) raw)
]
