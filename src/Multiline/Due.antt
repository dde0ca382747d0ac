-- ===== src/Multiline/Due.antt =====
-- src/logs/multiline.rs: the pending record whose time is up, `flush_if_expired`.
use witness.Prelude.{
  ℕ, ◌-◌, ◌≡◌, refl, sym, ap, ◌∙◌, subst, inl, inr, Bool, true, Option, none, some, leb,
  if◌then◌else◌, Bool-cases,
}
use witness.Crates.{Crates}
use witness.Sink.{Sink}
use witness.Structured.Classify.{FileParseOpts}
use witness.Watcher.State.{Aggregator, TailedFile}
use witness.Multiline.Record.{MultilineOpts, has_record, ship, shipped_file, clear_record}
use witness.Multiline.Loop.{waited_for, waited, remaining, flush_if_expired}
use witness.Multiline.Refusal.{Unchanged, Shipped, ship_lem}

module _ (crates : Crates) (opts : FileParseOpts) (ml : MultilineOpts) where
  open crates use {Value}

  -- No wait is left only behind a shipped record that was due; else nothing changed.
  abbrev Timed :
      ℕ → ℕ → Aggregator → TailedFile → Sink Value → Option ℕ × TailedFile × Sink Value → Type 0
  Timed now later a t s o =
      (o.0 ≡ none → (leb ml.timeout (waited_for now a) ≡ true) × Shipped crates opts a t s o.1 o.2)
      × ((d : ℕ)
          → o.0 ≡ some d
          → (d ≡ ml.timeout - waited_for later a) × Unchanged crates opts t s o.1 o.2)

  waited_age :
      (now : ℕ) (a : Aggregator)
      → has_record a ≡ true
      → waited now (some a) ≡ some (waited_for now a)
  waited_age now a h = rw h refl

  waits_on :
      (later : ℕ) (a : Aggregator) (t t' : TailedFile)
      → t.agg ≡ some a
      → has_record a ≡ true
      → t' ≡ t
      → remaining ml.timeout (waited later t'.agg) ≡ some (ml.timeout - waited_for later a)
  waits_on later a t t' e h same = rw same (rw e (rw (waited_age later a h) refl))

  shipped_waits_no_more :
      (later : ℕ) (a : Aggregator) (t t' : TailedFile)
      → t' ≡ shipped_file a t
      → remaining ml.timeout (waited later t'.agg) ≡ none
  unfolding clear_record
  shipped_waits_no_more later a t t' e = rw e refl

  none_waits : {w d : ℕ} {o : Option ℕ} → o ≡ some w → o ≡ some d → d ≡ w
  none_waits e h = cc

  is_waiting : {w : ℕ} {o : Option ℕ} {P : Type 0} → o ≡ some w → o ≡ none → P
  is_waiting e h = cc

  still_waits :
      (now later : ℕ) (a : Aggregator) (t : TailedFile) (s : Sink Value)
      (o : Option ℕ × TailedFile × Sink Value)
      → o.0 ≡ some (ml.timeout - waited_for later a)
      → Unchanged crates opts t s o.1 o.2
      → Timed now later a t s o
  still_waits now later a t s o e same = (λ h. is_waiting e h, λ d h. (none_waits e h, same))

  waits_no_more :
      (now later : ℕ) (a : Aggregator) (t : TailedFile) (s : Sink Value)
      (o : Option ℕ × TailedFile × Sink Value)
      → leb ml.timeout (waited_for now a) ≡ true
      → o.0 ≡ none
      → Shipped crates opts a t s o.1 o.2
      → Timed now later a t s o
  waits_no_more now later a t s o due e done = (λ h. (due, done), λ d h. is_waiting h e)

  -- The answer behind a look at the record and, if it was due, the shipping of it.
  abbrev Answer : Type 0
  Answer = Option ℕ × TailedFile × Sink Value

  abbrev after_look : ℕ → Bool × TailedFile × Sink Value → Answer
  after_look later o = (remaining ml.timeout (waited later o.1.agg), o.1, o.2)

  due_waits :
      (now later : ℕ) (a : Aggregator) (t : TailedFile) (s : Sink Value)
      → t.agg ≡ some a
      → has_record a ≡ true
      → leb ml.timeout (waited_for now a) ≡ true
      → Timed now later a t s (after_look later (ship crates opts t s))
  due_waits now later a t s e h due =
      let o = ship crates opts t s in
      let done = ship_lem crates opts a t s e h in
      elim (Bool-cases o.0) [
        | inl sent ↦
            waits_no_more now later a t s (after_look later o) due
              (shipped_waits_no_more later a t o.1 (done.1 sent).0) (done.1 sent)
        | inr kept ↦
            still_waits now later a t s (after_look later o)
              (waits_on later a t o.1 e h (done.0 kept).0) (done.0 kept)
      ]

  abbrev looked : Bool → TailedFile → Sink Value → Bool × TailedFile × Sink Value
  looked due t s = if due then ship crates opts t s else (true, t, s)

  flush_due :
      (now later w : ℕ) (t : TailedFile) (s : Sink Value)
      → waited now t.agg ≡ some w
      → flush_if_expired crates opts ml now later t s
        ≡ after_look later (looked (leb ml.timeout w) t s)
  unfolding flush_if_expired
  flush_due now later w t s e = rw (e, flush_if_expired) refl

  -- The timer of a pending record: the time left is none only when the record was due at the first
  -- look at the clock and has been shipped; if a time is left, nothing changed, in the file or in what
  -- the sink has taken, and it is the timeout less the record's age at the second look.
  pub flush_if_expired_lem :
      (now later : ℕ) (a : Aggregator) (t : TailedFile) (s : Sink Value)
      → t.agg ≡ some a
      → has_record a ≡ true
      → (let o = flush_if_expired crates opts ml now later t s in
          (o.0 ≡ none
            → (leb ml.timeout (waited_for now a) ≡ true) × Shipped crates opts a t s o.1 o.2)
          × ((d : ℕ)
              → o.0 ≡ some d
              → (d ≡ ml.timeout - waited_for later a) × Unchanged crates opts t s o.1 o.2))
  flush_if_expired_lem now later a t s e h =
      subst (Timed now later a t s)
        (sym (flush_due now later (waited_for now a) t s (ap (waited now) e ∙ waited_age now a h)))
        (elim (Bool-cases (leb ml.timeout (waited_for now a))) [
          | inl due ↦
              subst (λ b. Timed now later a t s (after_look later (looked b t s))) (sym due)
                (due_waits now later a t s e h due)
          | inr early ↦
              subst (λ b. Timed now later a t s (after_look later (looked b t s))) (sym early)
                (still_waits now later a t s (after_look later (true, t, s))
                  (waits_on later a t t e h refl) (refl, refl))
        ])
