-- ===== src/Sink/Labels.antt =====
-- src/sink.rs: the labels of a metric. `with_merged` puts the tags of the configuration before them.
use witness.Prelude.{
  ℕ, zero, suc, ◌+◌, ◌-◌, ◌≤◌, ◌≡◌, refl, sym, ap, ◌∙◌, inl, inr, true, ◌&&◌, Option, none, some,
  List, [], ◌∷◌, ◌++◌, append_assoc, arith, leb, ◌==◌, if◌then◌else◌, leb→le, ==_iff, Bool-cases,
  length, take, drop, length-append, length-drop, take-append,
}
use witness.Prelude.Str.{Bytes}

abbrev pub Label : Type 0
Label = Bytes × Bytes

abbrev no_label : Label
no_label = ([], [])

abbrev pub stack : ℕ
stack = 16

-- `copy_from_slice` into a range of a buffer; `none` is a panic: the range does not lie in the buffer,
-- or has not the length of the slice.
unfoldable pub copy_into : {A : Type 0} → ℕ → ℕ → List A → List A → Option (List A)
copy_into lo hi slice buf =
    if leb lo hi && leb hi (length buf) && length slice == hi - lo
    then some (take lo buf ++ (slice ++ drop hi buf))
    else none

-- `&buf[..n]`.
unfoldable pub slice_to : {A : Type 0} → ℕ → List A → Option (List A)
slice_to n buf = if leb n (length buf) then some (take n buf) else none

abbrev pub bind : {A B : Type 0} → Option A → (A → Option B) → Option B
bind none f = none
bind (some a) f = f a

unfoldable pub fill : {A : Type 0} → ℕ → A → List A
fill zero a = []
fill (suc n) a = a ∷ fill n a

-- The slice that the call is given: on the stack up to 16 labels, and on the heap beyond.
unfoldable pub with_merged : List Label → List Label → Option (List Label)
unfolding copy_into slice_to fill
with_merged tags labels =
    let total = length tags + length labels in
    if leb total stack
    then bind (copy_into 0 (length tags) tags (fill stack no_label))
        (λ buf. bind (copy_into (length tags) total labels buf) (slice_to total))
    else some (tags ++ labels)

pub length-fill : {A : Type 0} (n : ℕ) (a : A) → length (fill n a) ≡ n
unfolding fill
length-fill zero a = refl
length-fill (suc n) a = ap suc (length-fill n a)

le→leb : (a b : ℕ) → a ≤ b → leb a b ≡ true
le→leb a b h = ground arith

copy_into_ok :
    {A : Type 0} (lo hi : ℕ) (slice buf : List A)
    → lo ≤ hi
    → hi ≤ length buf
    → length slice ≡ hi - lo
    → copy_into lo hi slice buf ≡ some (take lo buf ++ (slice ++ drop hi buf))
unfolding copy_into
copy_into_ok lo hi slice buf a b c =
    rw (le→leb lo hi a, le→leb hi (length buf) b, (==_iff (length slice) (hi - lo)).1 c) refl

slice_to_ok : {A : Type 0} (xs ys : List A) → slice_to (length xs) (xs ++ ys) ≡ some xs
unfolding slice_to
slice_to_ok xs ys =
    rw (le→leb (length xs) (length (xs ++ ys)) (omega (arith, length-append xs ys)))
      (ap some (take-append xs ys))

-- A buffer that begins with one slice, and gets another one behind it.
second_copy :
    (tags labels rest : List Label)
    → length labels ≤ length rest
    → bind
        (copy_into (length tags) (length tags + length labels) labels (tags ++ rest))
        (slice_to (length tags + length labels))
      ≡ some (tags ++ labels)
second_copy tags labels rest fits =
    let total = length tags + length labels in
    let buf = tags ++ rest in
    let after = drop total buf in
    let copied =
      copy_into_ok (length tags) total labels buf (omega arith)
        (omega (arith, fits, length-append tags rest)) (omega arith) in
    ap (λ o. bind o (slice_to total)) copied
    ∙ ap (λ xs. slice_to total (xs ++ (labels ++ after))) (take-append tags rest)
    ∙ ap (slice_to total) (sym (append_assoc tags labels after))
    ∙ ap (λ n. slice_to n ((tags ++ labels) ++ after)) (sym (length-append tags labels))
    ∙ slice_to_ok (tags ++ labels) after

-- Whatever the number of tags and labels, no slice is cut outside its buffer, and the call is given the
-- tags with the labels behind them.
pub with_merged_lem : (tags labels : List Label) → with_merged tags labels ≡ some (tags ++ labels)
unfolding with_merged
with_merged_lem tags labels = elim (Bool-cases (leb (length tags + length labels) stack)) [
  | inl few ↦
      let total = length tags + length labels in
      let room = leb→le total stack few in
      let empty = fill stack no_label in
      let size = length-fill stack no_label in
      let behind = drop (length tags) empty in
      let first =
        copy_into_ok 0 (length tags) tags empty (omega arith) (omega (arith, room, size))
          (omega arith) in
      rw few (
        ap (λ o. bind o (λ buf. bind (copy_into (length tags) total labels buf) (slice_to total)))
          first
        ∙ second_copy tags labels behind
            (omega (arith, room, size, length-drop (length tags) empty)))
  | inr many ↦ rw many refl
]
