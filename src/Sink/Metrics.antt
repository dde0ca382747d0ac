-- ===== src/Sink/Metrics.antt =====
-- src/sink.rs: the metric methods, which differ in the kind of the metric only. The formatting of a
-- number is a parameter.
use witness.Prelude.{
  ℕ, ◌+◌, ◌%◌, ◌≡◌, refl, ap, ◌∙◌, Bool, ◌&&◌, Option, some, List, [], ◌∷◌, ◌++◌, if◌then◌else◌,
  is_empty,
}
use witness.Prelude.Str.{Bytes, codes}
use witness.Metrics.{Kind, gauge, counter, checkpoint, Metric}
use witness.Sink.{SinkInner, live, dry_run, discard, Sink, usize}
use witness.Sink.Labels.{Label, bind, with_merged, with_merged_lem}

abbrev joined : List Label → Bytes
joined [] = []
joined ((k, v) ∷ []) = k ++ codes "=" ++ v
joined ((k, v) ∷ l ∷ ls) = k ++ codes "=" ++ v ++ codes "," ++ joined (l ∷ ls)

unfoldable pub fmt_labels : List Label → List Label → Bytes
fmt_labels tags labels =
    if is_empty tags && is_empty labels
    then []
    else codes "{" ++ joined (tags ++ labels) ++ codes "}"

abbrev pub heading : Kind → Bytes
heading gauge = codes "  gauge   "
heading counter = codes "  counter "
heading checkpoint = codes "  checkpoint "

-- What a call leads to: what the client is given, and what is printed on the terminal.
pub record Sent (F64 : Type 0) : Type 0 where
  pub given : List (Metric F64)
  pub printed : List Bytes

-- Without tags the labels are given as they are.
unfoldable pub labels_to_give : List Label → List Label → Option (List Label)
unfolding with_merged
labels_to_give tags labels = if is_empty tags then some labels else with_merged tags labels

labels_to_give_lem : (tags labels : List Label) → labels_to_give tags labels ≡ some (tags ++ labels)
unfolding labels_to_give
labels_to_give_lem [] labels = refl
labels_to_give_lem (t ∷ ts) labels = with_merged_lem (t ∷ ts) labels

abbrev give : {F64 : Type 0} → List Label → Metric F64 → Sent F64
give labels m = record { given = record m { labels = labels } ∷ []; printed = [] }

module _ {F64 Value : Type 0} (fmt_value : F64 → Bytes) where
  abbrev with_sink : Sink Value → Sent F64 → Option (Sent F64 × Sink Value)
  with_sink s o = some (o, s)

  unfoldable pub send_to : SinkInner → Metric F64 → Sink Value → Option (Sent F64 × Sink Value)
  unfolding labels_to_give fmt_labels
  send_to (live answer calls) m s =
      bind (labels_to_give s.tags m.labels) (λ labels. with_sink s (give labels m))
  send_to (dry_run n) m s = some (
    record {
      given = [];
      printed =
          (heading m.kind
            ++ m.name
            ++ fmt_labels s.tags m.labels
            ++ codes " = "
            ++ fmt_value m.value)
          ∷ [];
    },
    record s { inner = dry_run ((n + 1) % usize) },
  )
  send_to discard m s = some (record { given = []; printed = [] }, s)

  -- `gauge`, `gauge_dyn`, `counter`, `counter_dyn` and `counter_dyn_with_temporality`; `none` is a panic.
  unfoldable pub send : Metric F64 → Sink Value → Option (Sent F64 × Sink Value)
  unfolding send_to
  send m s = send_to s.inner m s

  -- In live mode the client is given the metric itself, with the tags of the configuration in front of
  -- its labels: with or without tags, and whether or not they fit on the stack. Nothing panics.
  pub send_lem :
      (m : Metric F64) (s : Sink Value) (answer : ℕ → Bool) (calls : ℕ)
      → s.inner ≡ live answer calls
      → send m s
        ≡ some (record { given = record m { labels = s.tags ++ m.labels } ∷ []; printed = [] }, s)
  unfolding send send_to
  send_lem m s answer calls is =
      ap (λ i. send_to i m s) is
      ∙ ap (λ o. bind o (λ labels. with_sink s (give labels m)))
          (labels_to_give_lem s.tags m.labels)
