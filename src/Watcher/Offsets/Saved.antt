-- ===== src/Watcher/Offsets/Saved.antt =====
-- src/logs/watcher.rs: offsets written and read.
use witness.Prelude.{
  ℕ, ◌<◌, ◌≡◌, refl, sym, ap, ◌∙◌, inl, inr, Bool, true, false, some, List, [], ◌∷◌, ◌++◌, ◌==◌,
  Bool-cases, any, All,
}
use witness.Prelude.Str.{Bytes, is_ascii_digit}
use witness.Utf8.{from_utf8_lossy, is_utf8}
use witness.Utf8.Laws.{from_utf8_lossy_valid}
use witness.Assoc.{Assoc, bytes_key, insert}
use witness.Std.Split.{
  lines, split, split-append, split_one, split_once_first, chomp_kept, chomp_all, no_empty_end,
  split-cons,
}
use witness.Std.Number.{u64}
use witness.Std.Print.{print, print-any, parse_uint-print}
use witness.Watcher.State.{TailedFile, FileId}
use witness.Watcher.Registry.{SavedOffset}
use witness.Watcher.Offsets.{offset_line, save_offsets, parse_offset, add_offsets, load_offsets}

-- A path that the format can hold, and numbers of 64 bits.
pub record IsSavable (t : TailedFile) : Type 0 where
  pub utf8 : is_utf8 t.path ≡ true
  pub no_tab : any (λ x. x == b'\t') t.path ≡ false
  pub no_feed : any (λ x. x == b'\n') t.path ≡ false
  pub no_return : any (λ x. x == b'\r') t.path ≡ false
  pub pos_fits : t.pos < u64
  pub dev_fits : t.id.dev < u64
  pub ino_fits : t.id.ino < u64

any-append :
    (p : ℕ → Bool) (s r : Bytes) → any p s ≡ false → any p r ≡ false → any p (s ++ r) ≡ false
any-append p [] r h k = k
any-append p (x ∷ xs) r h k = elim (Bool-cases (p x)) [
  | inl e ↦ cc (rw e at h)
  | inr e ↦ rw e (any-append p xs r (rw e at h) k)
]

any-cons :
    (c x : ℕ) (s : Bytes)
    → (x == c) ≡ false
    → any (λ y. y == c) s ≡ false
    → any (λ y. y == c) (x ∷ s) ≡ false
any-cons c x s h k = rw h k

-- A character that is neither in the path nor a tab nor a digit is not in the line.
any-offset_line :
    (c : ℕ) (t : TailedFile)
    → is_utf8 t.path ≡ true
    → any (λ x. x == c) t.path ≡ false
    → is_ascii_digit c ≡ false
    → (b'\t' == c) ≡ false
    → any (λ x. x == c) (offset_line t) ≡ false
unfolding offset_line
any-offset_line c t u h d n =
    let plain : ℕ → Bool = λ x. x == c in
    any-append plain (from_utf8_lossy t.path) _
      (ap (any plain) (from_utf8_lossy_valid t.path u) ∙ h)
      (any-cons c b'\t' _ n (
        any-append plain (print t.pos) _ (print-any c t.pos d) (
          any-cons c b'\t' _ n (
            any-append plain (print t.id.dev) _ (print-any c t.id.dev d)
              (any-cons c b'\t' _ n (print-any c t.id.ino d))))))

abbrev pub saved_of : TailedFile → SavedOffset
saved_of t = record { pos = t.pos; dev = t.id.dev; ino = t.id.ino }

parse_offset-offset_line :
    (t : TailedFile) → IsSavable t → parse_offset (offset_line t) ≡ some (t.path, saved_of t)
unfolding parse_offset offset_line
parse_offset-offset_line t s = rw (
  from_utf8_lossy_valid t.path s.utf8,
  split_once_first b'\t' t.path (print t.pos ++ b'\t' ∷ (print t.id.dev ++ b'\t' ∷ print t.id.ino))
      s.no_tab,
  split_once_first b'\t' (print t.pos) (print t.id.dev ++ b'\t' ∷ print t.id.ino)
      (print-any b'\t' t.pos refl),
  split_once_first b'\t' (print t.id.dev) (print t.id.ino) (print-any b'\t' t.id.dev refl),
  parse_uint-print t.pos s.pos_fits,
  parse_uint-print t.id.dev s.dev_fits,
  parse_uint-print t.id.ino s.ino_fits,
  parse_offset,
)

lines-line :
    (line rest : Bytes)
    → any (λ x. x == b'\n') line ≡ false
    → any (λ x. x == b'\r') line ≡ false
    → lines (line ++ b'\n' ∷ rest) ≡ line ∷ lines rest
unfolding lines
lines-line line rest n r =
    ap (λ ps. no_empty_end (chomp_all ps))
      (split-append b'\n' line rest ∙ ap (λ ps. ps ++ split b'\n' rest) (split_one b'\n' line n))
    ∙ chomped (split-cons b'\n' rest)
  where
    kept :
        (p : Bytes) (ps : List Bytes) (line : Bytes)
        → no_empty_end (line ∷ chomp_all (p ∷ ps)) ≡ line ∷ no_empty_end (chomp_all (p ∷ ps))
    kept p ps (c ∷ cs) = refl
    kept p [] [] = refl
    kept p (q ∷ qs) [] = refl

    chomped :
        (p : Bytes) × (ps : List Bytes) × (split b'\n' rest ≡ p ∷ ps)
        → no_empty_end (chomp_all (line ∷ split b'\n' rest))
          ≡ line ∷ no_empty_end (chomp_all (split b'\n' rest))
    chomped (p, ps, h) =
        ap (λ qs. no_empty_end (chomp_all (line ∷ qs))) h
        ∙ ap (λ q. no_empty_end (q ∷ chomp_all (p ∷ ps))) (chomp_kept line r)
        ∙ kept p ps line
        ∙ ap (λ qs. line ∷ no_empty_end (chomp_all qs)) (sym h)

lines-nil : lines [] ≡ []
unfolding lines split
lines-nil = refl

-- What loading the files one by one comes to: a later one in place of an earlier one at its path.
abbrev pub offsets_of :
    List (FileId × TailedFile) → Assoc Bytes SavedOffset → Assoc Bytes SavedOffset
offsets_of [] m = m
offsets_of ((id, t) ∷ fs) m = offsets_of fs (insert t.path (saved_of t) m)

add_offsets-save_offsets :
    (fs : List (FileId × TailedFile)) (m : Assoc Bytes SavedOffset)
    → All (λ e. IsSavable e.1) fs
    → add_offsets (lines (save_offsets fs)) m ≡ offsets_of fs m
unfolding save_offsets add_offsets
add_offsets-save_offsets [] m s = ap (λ ls. add_offsets ls m) lines-nil
add_offsets-save_offsets ((id, t) ∷ fs) m (h, s) =
    rw
      (
        lines-line (offset_line t) (save_offsets fs)
            (any-offset_line b'\n' t h.utf8 h.no_feed refl refl)
            (any-offset_line b'\r' t h.utf8 h.no_return refl refl),
        parse_offset-offset_line t h,
        add_offsets,
      )
      (add_offsets-save_offsets fs (insert t.path (saved_of t) m) s)

-- The offsets of the files that were saved are loaded again, with the position and the identity that
-- each file had, if no path has a tab, a line feed, a carriage return or bytes that are not UTF-8.
pub load_offsets-save_offsets :
    (fs : List (FileId × TailedFile))
    → All (λ e. IsSavable e.1) fs
    → load_offsets (some (save_offsets fs)) ≡ offsets_of fs []
unfolding load_offsets
load_offsets-save_offsets fs s = add_offsets-save_offsets fs [] s
