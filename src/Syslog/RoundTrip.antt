-- ===== src/Syslog/RoundTrip.antt =====
-- src/logs/syslog.rs: lines in the format of syslog.
use witness.Prelude.{
  ℕ, suc, ◌+◌, ◌≡◌, refl, ap, ◌∙◌, inl, inr, Bool, true, false, ◌&&◌, Option, none, some, [], ◌∷◌,
  ◌++◌, arith, ◌==◌, ==_iff, Bool-cases, length, drop, any, all, drop-append, drop-add, take-append,
}
use witness.Prelude.Str.{Bytes, starts_with}
use witness.Std.Scan.{find, rfind}
use witness.Crates.{position}
use witness.Syslog.{is_program_byte, is_valid_program, strip_pid, parse, separator}

suc-none : (o : Option ℕ) → elim o [ none ↦ none | some i ↦ some (suc i) ] ≡ none → o ≡ none
suc-none none e = refl
suc-none (some i) e = cc

find-none :
    (pat : Bytes) (c : ℕ) (cs : Bytes)
    → find pat (c ∷ cs) ≡ none
    → (starts_with pat (c ∷ cs) ≡ false) × (find pat cs ≡ none)
unfolding find
find-none pat c cs e = elim (Bool-cases (starts_with pat (c ∷ cs))) [
  | inl p ↦ absurd (some_none (rw (p, find) at e))
  | inr p ↦ (p, suc-none (find pat cs) (rw (p, find) at e))
]
  where
    some_none : ◌≡◌ {A = Option ℕ} (some 0) none → ⊥
    some_none e = cc

find_later :
    (pat : Bytes) (c n : ℕ) (cs : Bytes)
    → starts_with pat (c ∷ cs) ≡ false
    → find pat cs ≡ some n
    → find pat (c ∷ cs) ≡ some (suc n)
unfolding find
find_later pat c n cs p e = rw (p, e, find)

-- `a` and `b`, different, behind a text that has them nowhere together.
find-pair :
    (a b : ℕ) (s rest : Bytes)
    → (b == a) ≡ false
    → find (a ∷ b ∷ []) s ≡ none
    → find (a ∷ b ∷ []) (s ++ a ∷ b ∷ rest) ≡ some (length s)
unfolding find starts_with
find-pair a b [] rest h e = rw ((==_iff a a).1 refl, (==_iff b b).1 refl)
find-pair a b (c ∷ []) rest h e =
    find_later (a ∷ b ∷ []) c 0 (a ∷ b ∷ rest) (apart (a == c)) (find-pair a b [] rest h refl)
  where
    apart : (x : Bool) → (x && ((b == a) && true)) ≡ false
    apart x = ground (arith, h)
find-pair a b (c ∷ d ∷ s) rest h e =
    let (p, e') = find-none (a ∷ b ∷ []) c (d ∷ s) e in
    find_later (a ∷ b ∷ []) c (length (d ∷ s)) (d ∷ s ++ a ∷ b ∷ rest) p
      (find-pair a b (d ∷ s) rest h e')

rfind-none : (c : ℕ) (s : Bytes) → any (λ x. x == c) s ≡ false → rfind c s ≡ none
unfolding rfind
rfind-none c [] h = refl
rfind-none c (x ∷ xs) h = elim (Bool-cases (x == c)) [
  | inl e ↦ cc (rw e at h)
  | inr e ↦ rw (rfind-none c xs (rw e at h), e)
]

rfind-last :
    (c : ℕ) (s rest : Bytes)
    → any (λ x. x == c) rest ≡ false
    → rfind c (s ++ c ∷ rest) ≡ some (length s)
unfolding rfind
rfind-last c [] rest h = rw (rfind-none c rest h, (==_iff c c).1 refl)
rfind-last c (x ∷ xs) rest h = rw (rfind-last c xs rest h)

position-first :
    (c : ℕ) (s rest : Bytes)
    → any (λ x. x == c) s ≡ false
    → position c (s ++ c ∷ rest) ≡ some (length s)
unfolding position
position-first c [] rest h = rw ((==_iff c c).1 refl)
position-first c (x ∷ xs) rest h = elim (Bool-cases (x == c)) [
  | inl e ↦ cc (rw e at h)
  | inr e ↦ rw (e, position-first c xs rest (rw e at h))
]

position-none : (c : ℕ) (s : Bytes) → any (λ x. x == c) s ≡ false → position c s ≡ none
unfolding position
position-none c [] h = refl
position-none c (x ∷ xs) h = elim (Bool-cases (x == c)) [
  | inl e ↦ cc (rw e at h)
  | inr e ↦ rw (e, position-none c xs (rw e at h))
]

-- A program's name has neither a space nor a bracket.
program_bytes :
    (c : ℕ) (s : Bytes)
    → is_program_byte c ≡ false
    → all is_program_byte s ≡ true
    → any (λ x. x == c) s ≡ false
program_bytes c [] n h = refl
program_bytes c (x ∷ xs) n h = elim (Bool-cases (x == c)) [
  | inl e ↦ cc (ap is_program_byte ((==_iff x c).0 e), n, h)
  | inr e ↦ elim (Bool-cases (is_program_byte x)) [
    | inl p ↦ rw e (program_bytes c xs n (rw p at h))
    | inr p ↦ cc (rw p at h)
  ]
]

program_all : (s : Bytes) → is_valid_program s ≡ true → all is_program_byte s ≡ true
unfolding is_valid_program is_program_byte
program_all [] h = refl
program_all (b ∷ bs) h = ground arith

-- A tag is a program, and its process in brackets or not.
abbrev pub tag_of : Bytes → Option Bytes → Bytes
tag_of program none = program
tag_of program (some pid) = program ++ (b'[' ∷ (pid ++ b']' ∷ []))

strip_pid-tag_of :
    (program : Bytes) (pid : Option Bytes)
    → is_valid_program program ≡ true
    → strip_pid (tag_of program pid) ≡ program
unfolding strip_pid is_program_byte
strip_pid-tag_of program none h = rw (
  position-none b'[' program (program_bytes b'[' program refl (program_all program h)),
  strip_pid,
)
strip_pid-tag_of program (some pid) h =
    rw
      (
        position-first b'[' program (pid ++ b']' ∷ [])
            (program_bytes b'[' program refl (program_all program h)),
        strip_pid,
      )
      (take-append program (b'[' ∷ (pid ++ b']' ∷ [])))

drop-behind : (c : ℕ) (s rest : Bytes) → drop (length s + 1) (s ++ c ∷ rest) ≡ rest
drop-behind c s rest =
    drop-add (length s) 1 (s ++ c ∷ rest) ∙ ap (drop 1) (drop-append s (c ∷ rest))

-- A line `<head> <program>[<pid>]: <body>`, or without the process, is parsed into the program and
-- the body, if the program has the form of one, the tag has no space, and no colon followed by a
-- space stands before the tag's.
pub parse_lem :
    (head program : Bytes) (pid : Option Bytes) (body : Bytes)
    → is_valid_program program ≡ true
    → any (λ c. c == b' ') (tag_of program pid) ≡ false
    → find separator (head ++ b' ' ∷ tag_of program pid) ≡ none
    → parse ((head ++ b' ' ∷ tag_of program pid) ++ b':' ∷ b' ' ∷ body)
      ≡ some (record { program = program; body = body })
unfolding parse
parse_lem head program pid body valid no_space first =
    let front = head ++ b' ' ∷ tag_of program pid in
    rw (
      find-pair b':' b' ' front body refl first,
      take-append front (b':' ∷ b' ' ∷ body),
      rfind-last b' ' head (tag_of program pid) no_space,
      take-append front (b':' ∷ b' ' ∷ body),
      drop-behind b' ' head (tag_of program pid),
      strip_pid-tag_of program pid valid,
      drop-add (length front) 2 (front ++ b':' ∷ b' ' ∷ body),
      drop-append front (b':' ∷ b' ' ∷ body),
      valid,
      parse,
    )
