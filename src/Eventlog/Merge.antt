-- ===== src/Eventlog/Merge.antt =====
-- src/logs/eventlog_filter.rs: lists of event ids, one behind the other.
use witness.Prelude.{
  ℕ, ◌≡◌, refl, sym, ap, ◌∙◌, inl, inr, Bool, true, false, ◌&&◌, ◌||◌, Option, none, some, List, [],
  ◌∷◌, ◌++◌, append-nil, append_assoc, leb, ◌==◌, Bool-cases, Option-cases, is_empty,
}
use witness.Prelude.Str.{Bytes}
use witness.Std.Trim.{trim}
use witness.Std.Split.{split-append, split}
use witness.Eventlog.{
  EventIdFilter, add_token, add_tokens, parse, matches, in_any, no_filter, include_to, exclude_to,
  parse_range,
}

-- The filter that has the ranges of both.
abbrev both : EventIdFilter → EventIdFilter → EventIdFilter
both f g = record { includes = f.includes ++ g.includes; excludes = f.excludes ++ g.excludes }

abbrev pub joined : Option EventIdFilter → Option EventIdFilter → Option EventIdFilter
joined none o = none
joined (some f) none = none
joined (some f) (some g) = some (both f g)

abbrev then_tokens : List Bytes → Option EventIdFilter → Option EventIdFilter
then_tokens ts none = none
then_tokens ts (some f) = add_tokens ts f

add_tokens-append :
    (ts us : List Bytes) (f : EventIdFilter)
    → add_tokens (ts ++ us) f ≡ then_tokens us (add_tokens ts f)
unfolding add_tokens
add_tokens-append [] us f = refl
add_tokens-append (t ∷ ts) us f = elim (Option-cases (add_token (trim t) f)) [
  | inl e ↦ rw (e, add_tokens)
  | inr (g, e) ↦ rw (e, add_tokens) (add_tokens-append ts us g)
]

include_to-joined :
    (o : Option (ℕ × ℕ)) (f : EventIdFilter)
    → include_to o f ≡ joined (some f) (include_to o no_filter)
include_to-joined none f = refl
include_to-joined (some r) f = rw append-nil

exclude_to-joined :
    (o : Option (ℕ × ℕ)) (f : EventIdFilter)
    → exclude_to o f ≡ joined (some f) (exclude_to o no_filter)
exclude_to-joined none f = refl
exclude_to-joined (some r) f = rw append-nil

add_token-joined :
    (t : Bytes) (f : EventIdFilter) → add_token t f ≡ joined (some f) (add_token t no_filter)
unfolding add_token
add_token-joined [] f = rw (append-nil f.includes, append-nil f.excludes)
add_token-joined (c ∷ cs) f = elim (Bool-cases (c == b'-')) [
  | inl e ↦ rw e (exclude_to-joined (parse_range (trim cs)) f)
  | inr e ↦ rw e (include_to-joined (parse_range (c ∷ cs)) f)
]

joined_assoc :
    (f g : EventIdFilter) (o : Option EventIdFilter)
    → joined (some (both f g)) o ≡ joined (some f) (joined (some g) o)
joined_assoc f g none = refl
joined_assoc f g (some h) =
    rw
      (append_assoc f.includes g.includes h.includes, append_assoc f.excludes g.excludes h.excludes)

add_tokens-joined :
    (ts : List Bytes) (f : EventIdFilter)
    → add_tokens ts f ≡ joined (some f) (add_tokens ts no_filter)
unfolding add_tokens
add_tokens-joined [] f = rw (append-nil f.includes, append-nil f.excludes)
add_tokens-joined (t ∷ ts) f = elim (Option-cases (add_token (trim t) no_filter)) [
  | inl e ↦ rw (add_token-joined (trim t) f, e, add_tokens)
  | inr (g, e) ↦
      rw (add_token-joined (trim t) f, e, add_tokens)
        (add_tokens-joined ts (both f g)
          ∙ joined_assoc f g (add_tokens ts no_filter)
          ∙ ap (joined (some f)) (sym (add_tokens-joined ts g)))
]

then_tokens-joined :
    (ts : List Bytes) (o : Option EventIdFilter)
    → then_tokens ts o ≡ joined o (add_tokens ts no_filter)
then_tokens-joined ts none = refl
then_tokens-joined ts (some f) = add_tokens-joined ts f

-- The filter of two lists with a comma between has the ranges of both, and there is none if either
-- list is malformed.
pub parse-append : (a b : Bytes) → parse (a ++ b',' ∷ b) ≡ joined (parse a) (parse b)
unfolding parse
parse-append a b =
    ap (λ ts. add_tokens ts no_filter) (split-append b',' a b)
    ∙ add_tokens-append (split b',' a) (split b',' b) no_filter
    ∙ then_tokens-joined (split b',' b) (add_tokens (split b',' a) no_filter)

-- Whether an event is shipped, if the filter is well-formed.
abbrev pub ships : ℕ → Option EventIdFilter → Option Bool
ships id none = none
ships id (some f) = some (matches f id)

in_any-append :
    (id : ℕ) (rs ss : List (ℕ × ℕ)) → in_any id (rs ++ ss) ≡ (in_any id rs || in_any id ss)
in_any-append id [] ss = refl
in_any-append id ((lo, hi) ∷ rs) ss = elim (Bool-cases (leb lo id && leb id hi)) [
  | inl e ↦ rw e
  | inr e ↦ rw e (in_any-append id rs ss)
]

is_empty-append : (rs ss : List (ℕ × ℕ)) → is_empty (rs ++ ss) ≡ (is_empty rs && is_empty ss)
is_empty-append [] ss = refl
is_empty-append (r ∷ rs) ss = refl

or_comm : (a b : Bool) → (a || b) ≡ (b || a)
or_comm true true = refl
or_comm true false = refl
or_comm false true = refl
or_comm false false = refl

and_comm : (a b : Bool) → (a && b) ≡ (b && a)
and_comm true true = refl
and_comm true false = refl
and_comm false true = refl
and_comm false false = refl

in_any_comm : (id : ℕ) (rs ss : List (ℕ × ℕ)) → in_any id (rs ++ ss) ≡ in_any id (ss ++ rs)
in_any_comm id rs ss =
    in_any-append id rs ss ∙ or_comm (in_any id rs) (in_any id ss) ∙ sym (in_any-append id ss rs)

is_empty_comm : (rs ss : List (ℕ × ℕ)) → is_empty (rs ++ ss) ≡ is_empty (ss ++ rs)
is_empty_comm rs ss =
    is_empty-append rs ss ∙ and_comm (is_empty rs) (is_empty ss) ∙ sym (is_empty-append ss rs)

matches-both : (f g : EventIdFilter) (id : ℕ) → matches (both f g) id ≡ matches (both g f) id
unfolding matches
matches-both f g id = rw (
  in_any_comm id f.excludes g.excludes,
  is_empty_comm f.includes g.includes,
  in_any_comm id f.includes g.includes,
)

-- Two lists of event ids, in either order, let the same events pass, and are malformed alike.
pub parse_comm :
    (a b : Bytes) (id : ℕ) → ships id (parse (a ++ b',' ∷ b)) ≡ ships id (parse (b ++ b',' ∷ a))
parse_comm a b id =
    ap (ships id) (parse-append a b)
    ∙ swapped (parse a) (parse b)
    ∙ sym (ap (ships id) (parse-append b a))
  where
    swapped : (o p : Option EventIdFilter) → ships id (joined o p) ≡ ships id (joined p o)
    swapped none none = refl
    swapped none (some g) = refl
    swapped (some f) none = refl
    swapped (some f) (some g) = ap some (matches-both f g id)
