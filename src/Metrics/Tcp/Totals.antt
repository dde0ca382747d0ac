-- ===== src/Metrics/Tcp/Totals.antt =====
-- src/metrics/linux/tcp.rs: the counts of the states and the lines of the table.
use witness.Prelude.{
  ℕ, zero, suc, ◌+◌, ◌-◌, ◌≤◌, ◌≡◌, refl, ◌∙◌, inl, inr, List, [], ◌∷◌, arith, Option-cases, length,
  drop, get_elem?, length-drop,
}
use witness.Prelude.Str.{Bytes}
use witness.Std.Split.{lines, split_whitespace}
use witness.Metrics.Tcp.{count_up, count_line, count_lines, count_states, parse_hex}

abbrev pub total : List ℕ → ℕ
total [] = 0
total (n ∷ ns) = n + total ns

-- As many counts as before, and at most so many connections more.
abbrev pub Counted : ℕ → List ℕ → List ℕ → Type 0
Counted more before after = (length after ≡ length before) × (total after ≤ total before + more)

count_up-Counted : (i : ℕ) (ns : List ℕ) → Counted 1 ns (count_up i ns)
unfolding count_up
count_up-Counted i [] = (refl, omega arith)
count_up-Counted zero (n ∷ ns) = (refl, omega arith)
count_up-Counted (suc i) (n ∷ ns) =
    let (same, more) = count_up-Counted i ns in (omega (arith, same), omega (arith, more))

count_line-Counted : (line : Bytes) (ns : List ℕ) → Counted 1 ns (count_line line ns)
unfolding count_line
count_line-Counted line ns = elim (Option-cases (get_elem? (split_whitespace line) 3)) [
  | inl e ↦ rw (e, count_line) (refl, omega arith)
  | inr (st, e) ↦ elim (Option-cases (parse_hex st)) [
    | inl h ↦ rw (e, h, count_line) (refl, omega arith)
    | inr (i, h) ↦ rw (e, h, count_line) (count_up-Counted i ns)
  ]
]

count_lines-Counted : (ls : List Bytes) (ns : List ℕ) → Counted (length ls) ns (count_lines ls ns)
unfolding count_lines
count_lines-Counted [] ns = (refl, omega arith)
count_lines-Counted (l ∷ ls) ns =
    let (same, more) = count_line-Counted l ns in
    let (same', more') = count_lines-Counted ls (count_line l ns) in
    (same' ∙ same, omega (arith, more, more'))

-- Counting a table keeps the number of states, and counts at most one connection for each of its
-- lines, the first of which is the heading.
pub count_states-Counted :
    (buf : Bytes) (ns : List ℕ) → Counted (length (lines buf) - 1) ns (count_states buf ns)
unfolding count_states
count_states-Counted buf ns =
    let (same, more) = count_lines-Counted (drop 1 (lines buf)) ns in
    (same, omega (arith, more, length-drop 1 (lines buf)))
