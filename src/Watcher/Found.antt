-- ===== src/Watcher/Found.antt =====
-- src/logs/watcher.rs: the search for a rotated file, and truncation.
use witness.Text.Lines.{split_lines}
use witness.Crates.{Crates}
use witness.Sink.{Entry, Sink}
use witness.Structured.Classify.{FileParseOpts}
use witness.Watcher.Lines.{flush_partial}
use witness.Watcher.Rotated.{flush_partial_lem}
use witness.Watcher.Poll.{check_and_read, check_opened, on_truncation, read_new}
use witness.Watcher.Polls.{Holds, Standing, read_lines-Standing}
use witness.Prelude.{
  ℕ, ◌<◌, ◌≡◌, refl, sym, ap, inl, inr, true, Option, none, some, List, [], append-nil, arith, ltb,
  leb, Bool-cases, drop, is_empty,
}
use witness.Prelude.Str.{Bytes}
use witness.Watcher.State.{File, TailedFile, same_id}
use witness.Watcher.Identity.{Metadata, FileSystem}

-- The file was opened, and its metadata, or its entry in the directory, has the identity.
pub record IsOriginal (fs : FileSystem) (t : TailedFile) (file : File) : Type 0 where
  pub at : Bytes
  pub meta : Option Metadata
  pub opened : fs.open_file at ≡ some (file, meta)
  pub proved : Metadata
  pub same : proved.id ≡ t.id

-- What an answer promises, if there is one.
abbrev Promise : {A : Type 0} → (A → Type 0) → Option A → Type 0
Promise P none = Unit
Promise P (some a) = P a

module _ (crates : Crates) (opts : FileParseOpts) (fs : FileSystem) (now : ℕ → ℕ) (content : Bytes)
    (file : File) where
  open crates use {Value}

  flush_partial-pos : (t : TailedFile) (s : Sink Value) → (flush_partial crates t s).0.pos ≡ t.pos
  unfolding flush_partial
  flush_partial-pos t s = elim (Bool-cases (is_empty t.partial)) [
    | inl e ↦ rw (e, flush_partial)
    | inr e ↦ rw (e, flush_partial)
  ]

  -- At the start of the content, with nothing buffered.
  at_start :
      (t : TailedFile) (s : Sink Value)
      → t.pos ≡ 0
      → t.partial ≡ []
      → Standing crates opts content 0 [] s.taken t s
  at_start t s p e = record {
    done = [];
    left = split_lines content;
    lines_are = refl;
    ahead = ap (λ n. split_lines (drop n content)) p;
    pos_is = omega (arith, p);
    partial_is = e;
    taken_is = sym (append-nil s.taken);
  }

  read_new-Standing :
      (from : ℕ) (partial : Bytes) (base : List (Entry Value)) (len : ℕ) (t : TailedFile)
      (s : Sink Value)
      → Holds file content
      → Standing crates opts content from partial base t s
      → (let o = read_new crates opts fs now none len file t s in
          Standing crates opts content from partial base o.1 o.2)
  unfolding read_new
  read_new-Standing from partial base len t s holds h = elim (Bool-cases (leb len t.pos)) [
    | inl e ↦ rw (e, read_new) h
    | inr e ↦
        rw (e, read_new)
          (read_lines-Standing crates opts content partial from base file holds t s h)
  ]

  -- A file that is shorter than the position (single-line mode): the text that was buffered is handed
  -- to the sink, and the file stands as one that is read from its start.
  pub check_and_read_truncated :
      (meta : Metadata) (t : TailedFile) (s : Sink Value)
      → fs.open_file t.path ≡ some (file, some meta)
      → same_id meta.id t.id ≡ true
      → meta.len < t.pos
      → Holds file content
      → (let o = check_and_read crates opts fs now none t s in
          Standing crates opts content 0 []
            (flush_partial crates (record t { pos = 0 }) s).1.taken
            o.1
            o.2)
  unfolding check_and_read check_opened on_truncation
  check_and_read_truncated meta t s opened same shorter holds =
      let (t', s') = flush_partial crates (record t { pos = 0 }) s in
      let cleared = (flush_partial_lem crates opts (record t { pos = 0 }) s).0 in
      rw (opened, same, is_shorter, check_and_read, check_opened, on_truncation)
        (read_new-Standing 0 [] s'.taken meta.len t' s' holds
          (at_start t' s' (flush_partial-pos (record t { pos = 0 }) s) cleared))
    where
      is_shorter : ltb meta.len t.pos ≡ true
      is_shorter = ground (arith, shorter)
