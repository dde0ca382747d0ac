-- ===== src/Journal/Cursor.antt =====
-- src/logs/journal.rs: what stands in the journal behind a cursor.
use witness.Prelude.{
  ◌≡◌, refl, sym, ap, ◌∙◌, subst, ◌≢◌, ◌⊎◌, inl, inr, Bool, true, false, Option, none, some, List,
  [], ◌∷◌, ◌++◌, append_assoc, ltb, if◌then◌else◌, Bool-cases, length, all, All,
}
use witness.Prelude.Str.{Bytes, eqb, eqb_iff, eqb_refl}
use witness.Std.Case.{Case}
use witness.Std.Trim.{trim}
use witness.Crates.{Crates}
use witness.Journal.{ServiceFilter, JournalEntry}
use witness.Journal.Reader.{Read, line, failure, newer, max_line_len}
use witness.Journal.Attempt.{
  shipped_entry, cursor_entry, shipped_line, shipped, cursor_line, cursor_after, shipped-append,
}

module _ (crates : Crates) (case : Case) (decode : Bytes → Option (JournalEntry (crates.Value)))
    (filter : ServiceFilter) where
  open crates use {Value}

  abbrev pub entry_cursor : Option (JournalEntry Value) → Option Bytes
  entry_cursor none = none
  entry_cursor (some e) = e.cursor

  abbrev pub cursor_of : Read → Option Bytes
  cursor_of failure = none
  cursor_of (line text) = entry_cursor (decode (trim text))

  abbrev pub is_at : Bytes → Option Bytes → Bool
  is_at c none = false
  is_at c (some d) = eqb d c

  -- The lines behind the one with a cursor: what `journalctl --after-cursor` prints.
  abbrev pub after : Bytes → List Read → List Read
  after c [] = []
  after c (l ∷ ls) = if is_at c (cursor_of l) then ls else after c ls

  abbrev pub Apart : Read → Read → Type 0
  Apart l k = (c : Bytes) → cursor_of l ≡ some c → cursor_of k ≡ some c → ⊥

  -- No two lines have one cursor.
  abbrev pub Distinct : List Read → Type 0
  Distinct [] = Unit
  Distinct (l ∷ ls) = All (Apart l) ls × Distinct ls

  abbrev pub EntryHasCursor : Option (JournalEntry Value) → Type 0
  EntryHasCursor none = Unit
  EntryHasCursor (some e) = e.cursor ≢ none

  -- Every line that is an entry has a cursor.
  abbrev pub HasCursor : Read → Type 0
  HasCursor failure = Unit
  HasCursor (line text) = EntryHasCursor (decode (trim text))

  pub after-suffix : (c : Bytes) (j : List Read) → (pre : List Read) × (j ≡ pre ++ after c j)
  after-suffix c [] = ([], refl)
  after-suffix c (l ∷ ls) = elim (Bool-cases (is_at c (cursor_of l))) [
    | inl y ↦ (l ∷ [], rw y)
    | inr n ↦ let (pre, e) = after-suffix c ls in (l ∷ pre, rw n (ap (◌∷◌ l) e))
  ]

  pub cursor_found : (c : Bytes) (o : Option Bytes) → is_at c o ≡ true → o ≡ some c
  cursor_found c none h = cc
  cursor_found c (some d) h = ap some ((eqb_iff d c).0 h)

  pub All-middle : (k l : Read) (ls pre : List Read) → All (Apart k) (pre ++ l ∷ ls) → Apart k l
  All-middle k l ls [] h = h.0
  All-middle k l ls (p ∷ pre) h = All-middle k l ls pre h.1

  pub after_line :
      (c : Bytes) (pre : List Read) (l : Read) (ls : List Read)
      → cursor_of l ≡ some c
      → Distinct (pre ++ l ∷ ls)
      → after c (pre ++ l ∷ ls) ≡ ls
  after_line c [] l ls e d = rw (e, eqb_refl c) refl
  after_line c (k ∷ pre) l ls e d =
      rw (other (is_at c (cursor_of k)) refl) (after_line c pre l ls e d.1)
    where
      other : (b : Bool) → is_at c (cursor_of k) ≡ b → b ≡ false
      other false h = refl
      other true h = absurd (All-middle k l ls pre d.0 c (cursor_found c (cursor_of k) h) e)

  -- A line that brings no cursor ships nothing.
  pub silent :
      (old : Option Bytes) (l : Read)
      → HasCursor l
      → (cursor_line crates case decode filter old l ≡ old)
          × (shipped_line crates case decode filter l ≡ [])
        ⊎ ((c : Bytes) × (cursor_of l ≡ some c)
            × (cursor_line crates case decode filter old l ≡ some c))
  silent old failure h = inl (refl, refl)
  silent old (line text) h = elim (Bool-cases (ltb max_line_len (length text))) [
    | inl long ↦ rw long (inl (refl, refl))
    | inr short ↦ rw short (silent_entry (decode (trim text)) h)
  ]
    where
      silent_cursor :
          (e : JournalEntry Value) (o : Option Bytes)
          → e.cursor ≡ o
          → (o ≢ none)
          → (c : Bytes) × (e.cursor ≡ some c) × (newer e.cursor old ≡ some c)
      silent_cursor e none at h = absurd (h refl)
      silent_cursor e (some c) at h = (c, at, rw at refl)

      silent_entry :
          (o : Option (JournalEntry Value))
          → EntryHasCursor o
          → ((cursor_entry crates case decode filter old o ≡ old)
              × (shipped_entry crates case decode filter o ≡ []))
            ⊎ ((c : Bytes) × (entry_cursor o ≡ some c)
                × (cursor_entry crates case decode filter old o ≡ some c))
      silent_entry none h = inl (refl, refl)
      silent_entry (some e) h = inr (silent_cursor e e.cursor refl h)

  -- From the cursor among the first lines: what comes is the lines left, behind lines that are worth
  -- nothing.
  pub resumed :
      (journal : List Read) (c : Bytes) (xs rest quiet : List Read)
      → Distinct journal
      → All HasCursor xs
      → after c journal ≡ quiet ++ (xs ++ rest)
      → shipped crates case decode filter quiet ≡ []
      → (c' : Bytes) × (cursor_after crates case decode filter (some c) xs ≡ some c')
        × (shipped crates case decode filter (after c' journal)
            ≡ shipped crates case decode filter rest)
  resumed journal c [] rest quiet d h at q = (
    c,
    refl,
    ap (shipped crates case decode filter) at
        ∙ shipped-append crates case decode filter quiet rest
        ∙ ap (λ es. es ++ shipped crates case decode filter rest) q,
  )
  resumed journal c (x ∷ xs) rest quiet d h at q = elim (silent (some c) x h.0) [
    | inl (same, nothing) ↦ rw same (
        resumed journal c xs rest (quiet ++ x ∷ []) d h.1
          (at ∙ sym (append_assoc quiet (x ∷ []) (xs ++ rest)))
          (shipped-append crates case decode filter quiet (x ∷ []) ∙ rw (q, nothing) refl))
    | inr (c', is, new) ↦ rw new (
        resumed journal c' xs rest [] d h.1
          (let (before, all) = after-suffix c journal in
            let whole =
              all ∙ ap (◌++◌ before) at ∙ sym (append_assoc before quiet (x ∷ (xs ++ rest))) in
            ap (after c') whole
            ∙ after_line c' (before ++ quiet) x (xs ++ rest) is (subst Distinct whole d))
          refl)
  ]

  pub All-after : (P : Read → Type 0) (c : Bytes) (ls : List Read) → All P ls → All P (after c ls)
  All-after P c [] h = tt
  All-after P c (l ∷ ls) h = elim (Bool-cases (is_at c (cursor_of l))) [
    | inl y ↦ rw y h.1
    | inr n ↦ rw n (All-after P c ls h.1)
  ]

  pub All-left : (P : Read → Type 0) (xs ys : List Read) → All P (xs ++ ys) → All P xs
  All-left P [] ys h = tt
  All-left P (x ∷ xs) ys h = (h.0, All-left P xs ys h.1)

  -- What the cursors of lines have in common, the last one among them has.
  module _ (P : Bytes → Type 0) where
    abbrev pub HasAny : Option Bytes → Type 0
    HasAny o = (d : Bytes) → o ≡ some d → P d

    abbrev pub EveryCursor : Read → Type 0
    EveryCursor l = HasAny (cursor_of l)

    entry_cursor-HasAny :
        (old : Option Bytes) (o : Option (JournalEntry Value))
        → HasAny old
        → HasAny (entry_cursor o)
        → HasAny (cursor_entry crates case decode filter old o)
    entry_cursor-HasAny old none a b = a
    entry_cursor-HasAny old (some e) a b = newer-HasAny e.cursor b
      where
        newer-HasAny : (o : Option Bytes) → HasAny o → HasAny (newer o old)
        newer-HasAny none b = a
        newer-HasAny (some c) b = b

    cursor_line-HasAny :
        (old : Option Bytes) (l : Read)
        → HasAny old
        → EveryCursor l
        → HasAny (cursor_line crates case decode filter old l)
    cursor_line-HasAny old failure a b = a
    cursor_line-HasAny old (line text) a b = elim (Bool-cases (ltb max_line_len (length text))) [
      | inl long ↦ rw long a
      | inr short ↦ rw short (entry_cursor-HasAny old (decode (trim text)) a b)
    ]

    pub cursor_after-HasAny :
        (old : Option Bytes) (ls : List Read)
        → HasAny old
        → All EveryCursor ls
        → HasAny (cursor_after crates case decode filter old ls)
    cursor_after-HasAny old [] a b = a
    cursor_after-HasAny old (l ∷ ls) a b =
        cursor_after-HasAny (cursor_line crates case decode filter old l) ls
          (cursor_line-HasAny old l a b.0) b.1
