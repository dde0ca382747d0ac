-- ===== src/Structured/Severity/Tokens.antt =====
-- src/logs/structured.rs: the words of the window that is scanned for a level.
use witness.Prelude.{
  ℕ, zero, suc, ◌<◌, ◌≡◌, refl, sym, ap, ◌∙◌, inl, inr, Bool, true, false, Option, none, some, List,
  [], ◌∷◌, ◌++◌, append-nil, append_assoc, arith, if◌then◌else◌, Bool-cases, length, take, all,
  length-take-le,
}
use witness.Prelude.Str.{Bytes}
use witness.Std.Scan.{span, span-append, span-all, span-Stops, Stops, length-span}
use witness.Level.{LogLevel}
use witness.Structured.Severity.{
  is_word_byte, level_for_token, level_scan_window, scan_window, scan_line_level,
}

abbrev add_token : Bytes → List Bytes → List Bytes
add_token [] ts = ts
add_token (c ∷ cs) ts = (c ∷ cs) ∷ ts

-- The maximal runs of word bytes; `word` is what was read of the run at the front.
unfoldable pub tokens_onto : Bytes → Bytes → List Bytes
tokens_onto word [] = add_token word []
tokens_onto word (c ∷ cs) =
    let longer = tokens_onto (word ++ c ∷ []) cs in
    let next = tokens_onto [] cs in if is_word_byte c then longer else add_token word next

abbrev pub tokens : Bytes → List Bytes
tokens = tokens_onto []

-- The level of the first token that is one.
abbrev pub first_level : List Bytes → Option LogLevel
first_level [] = none
first_level (t ∷ ts) =
    let later = first_level ts in elim (level_for_token t) [ some l ↦ some l | none ↦ later ]

tokens_onto-run :
    (word run rest : Bytes)
    → all is_word_byte run ≡ true
    → Stops is_word_byte rest
    → tokens_onto word (run ++ rest) ≡ add_token (word ++ run) (tokens_onto [] rest)
unfolding tokens_onto
tokens_onto-run word [] [] h stop = rw (append-nil word)
tokens_onto-run word [] (c ∷ cs) h stop = rw (append-nil word, stop)
tokens_onto-run word (c ∷ run) rest h stop = elim (Bool-cases (is_word_byte c)) [
  | inr e ↦ cc (rw e at h)
  | inl e ↦ rw e (
      tokens_onto-run (word ++ c ∷ []) run rest (rw e at h) stop
      ∙ ap (λ w. add_token w (tokens_onto [] rest)) (append_assoc word (c ∷ []) run))
]

-- A text that begins with a word byte: its first run, and what is behind it.
tokens-span :
    (c : ℕ) (cs : Bytes)
    → is_word_byte c ≡ true
    → tokens (c ∷ cs) ≡ (span is_word_byte (c ∷ cs)).0 ∷ tokens (span is_word_byte (c ∷ cs)).1
tokens-span c cs h =
    ap tokens (sym (span-append is_word_byte (c ∷ cs)))
    ∙ tokens_onto-run [] (span is_word_byte (c ∷ cs)).0 (span is_word_byte (c ∷ cs)).1
        (span-all is_word_byte (c ∷ cs)) (span-Stops is_word_byte (c ∷ cs))
    ∙ added
  where
    added :
        add_token (span is_word_byte (c ∷ cs)).0 (tokens (span is_word_byte (c ∷ cs)).1)
        ≡ (span is_word_byte (c ∷ cs)).0 ∷ tokens (span is_word_byte (c ∷ cs)).1
    added = unfold span in rw h refl

tokens_plain : (c : ℕ) (cs : Bytes) → is_word_byte c ≡ false → tokens (c ∷ cs) ≡ tokens cs
unfolding tokens_onto
tokens_plain c cs h = rw h

length-span_less :
    (p : ℕ → Bool) (c : ℕ) (cs : Bytes) → p c ≡ true → length (span p (c ∷ cs)).1 < length (c ∷ cs)
unfolding span
length-span_less p c cs h = rw h (omega (arith, length-span p cs))

scan_window_lem :
    (fuel : ℕ) (w : Bytes) → length w < fuel → scan_window fuel w ≡ first_level (tokens w)
unfolding scan_window
scan_window_lem zero w h = absurd (omega arith)
scan_window_lem (suc fuel) [] h = unfold tokens_onto in refl
scan_window_lem (suc fuel) (c ∷ cs) h = elim (Bool-cases (is_word_byte c)) [
  | inr e ↦
      rw (e, scan_window)
        (scan_window_lem fuel cs (omega arith) ∙ ap first_level (sym (tokens_plain c cs e)))
  | inl e ↦
      let o = span is_word_byte (c ∷ cs) in
      rw (e, scan_window)
        (ap (λ x. elim (level_for_token o.0) [ some l ↦ some l | none ↦ x ])
            (scan_window_lem fuel o.1 (omega (arith, length-span_less is_word_byte c cs e)))
          ∙ ap first_level (sym (tokens-span c cs e)))
]

-- The level that is found in a line is the one of the first of the words in its first 96 bytes that
-- names a level; there is none if no word does.
pub scan_line_level_lem :
    (line : Bytes) → scan_line_level line ≡ first_level (tokens (take level_scan_window line))
unfolding scan_line_level
scan_line_level_lem line =
    scan_window_lem (suc level_scan_window) (take level_scan_window line)
      (omega (arith, length-take-le level_scan_window line))
