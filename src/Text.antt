-- ===== src/Text.antt =====
-- src/logs/text.rs: lossy decoding, and reading up to a newline from a buffered reader.
pub mod Lines
pub mod Reading
pub mod Loop
use witness.Prelude.{
  ℕ, zero, suc, ◌+◌, ◌≡◌, sym, ◌∙◌, inl, inr, true, false, Option, none, some, List, [], ◌∷◌, ◌++◌,
  ◌==◌, if◌then◌else◌, Bool-cases, length, take, drop, is_empty,
}
use witness.Prelude.Str.{Bytes}
use witness.Utf8.{from_utf8_lossy}
use witness.Utf8.Laws.{from_utf8_lossy_valid}
use witness.Crates.{Crates}

-- What `fill_buf` answers when its buffer is used up: bytes (none at the end of the file),
-- `ErrorKind::Interrupted`, or another error.
pub data Fill : Type 0 where
  chunk : Bytes → Fill
  interrupted : Fill
  failed : Fill

-- A buffered reader is what it will answer; a chunk that was used in part stands in front.
abbrev pub Reader : Type 0
Reader = List Fill

-- `consume`: what is left of the buffer is answered next.
abbrev pub leave : Bytes → Reader → Reader
leave [] r = r
leave (c ∷ cs) r = chunk (c ∷ cs) ∷ r

module _ (crates : Crates) where
  unfoldable pub lossy : Bytes → Bytes
  lossy s = if crates.simd_utf8 s then s else from_utf8_lossy s

  -- The count that is returned (`none` for an error), the buffer and the reader.
  unfoldable pub read_from : ℕ → Reader → Bytes → Option ℕ × Bytes × Reader
  read_from read [] buf = (some read, buf, [])
  read_from read (interrupted ∷ r) buf = read_from read r buf
  read_from read (failed ∷ r) buf = (none, buf, r)
  read_from read (chunk a ∷ r) buf = elim (crates.memchr b'\n' a) [
    | some i ↦ (some (read + (i + 1)), buf ++ take (i + 1) a, leave (drop (i + 1) a) r)
    | none ↦ elim (is_empty a) [
      | true ↦ (some read, buf, r)
      | false ↦ read_from (read + length a) r (buf ++ a)
    ]
  ]

  unfoldable pub read_line : Reader → Bytes → Option ℕ × Bytes × Reader
  unfolding read_from
  read_line = read_from 0

  -- The SIMD check changes nothing: `lossy` is `String::from_utf8_lossy`.
  pub lossy_lem : (s : Bytes) → lossy s ≡ from_utf8_lossy s
  unfolding lossy
  lossy_lem s = elim (Bool-cases (crates.simd_utf8 s)) [
    | inl valid ↦ rw valid (sym (from_utf8_lossy_valid s (sym (crates.simd_utf8_valid s) ∙ valid)))
    | inr broken ↦ rw broken
  ]

-- The results of `read_line` into an empty buffer, called again and again: a loop takes them one by
-- one until the end of the file, an error, or a reason of its own to stop.
pub data Reads : Type 0 where
  eof : Reads
  error : Reads
  got : Bytes → Reads → Reads

pub size : Reader → ℕ
size [] = 0
size (chunk a ∷ r) = suc (length a + size r)
size (_ ∷ r) = suc (size r)

module _ (crates : Crates) where
  unfoldable pub reads_in : ℕ → Reader → Reads
  reads_in zero r = eof
  reads_in (suc fuel) r =
      let (count, buf, r') = read_line crates r [] in
      let rest = reads_in fuel r' in
      elim count [ none ↦ error | some n ↦ if n == 0 then eof else got buf rest ]

  unfoldable pub reads : Reader → Reads
  unfolding reads_in size read_line
  reads r = reads_in (suc (size r)) r
