-- ===== src/Remote/Authority.antt =====
-- src/remote_config.rs: what a server can do to the configuration.
use mathlib.Core.Bool.{false≢true}
use witness.Prelude.{
  ℕ, ◌≤◌, min, max, ◌≡◌, refl, sym, ap, ◌∙◌, subst, ◌⊎◌, inl, inr, Bool, true, false, not, ◌&&◌,
  Option, none, some, List, [], ◌∷◌, arith, ◌==◌, if◌then◌else◌, Bool-cases, all,
}
use witness.Prelude.Str.{Bytes, codes, eqb, starts_with}
use witness.Utf8.{from_utf8_lossy}
use witness.Source.{next_backoff}
use witness.Config.{AgentConfig, Formats, parse_config}
use witness.Remote.Http.{
  HttpResponse, Parsed, response, unparseable, panicked, parse_http_response, config_hash,
}
use witness.Remote.Poller.{
  backoff_cap, PollerConfig, Poll, not_modified, unchanged, changed, invalid, curl_missing,
  fetch_failed, task_panicked, Curl, missing, failed, printed, compared, classify_body,
  classify_response, classify_parsed, poll_once, is_ascii_whitespace, Turn, cancelled, polled,
  Poller, on_poll, on_turn, poll_loop, idle, run_poller,
}

module _ (formats : Formats) (pc : PollerConfig) where
  -- A text is a configuration that is accepted, and its hash is not that of the one in force.
  abbrev pub Approved : Bytes → Type 0
  Approved body =
      (cfg : AgentConfig) × (parse_config formats body ≡ some cfg)
      × (eqb (config_hash body) pc.applied_hash ≡ false)

  abbrev Sound : Poll → Type 0
  Sound (changed c) = Approved c.body
  Sound not_modified = Unit
  Sound (unchanged etag) = Unit
  Sound invalid = Unit
  Sound curl_missing = Unit
  Sound fetch_failed = Unit
  Sound task_panicked = Unit

  compared-Sound :
      (cfg : AgentConfig) (body : Bytes) (etag : Option Bytes)
      → parse_config formats body ≡ some cfg
      → Sound (compared formats pc cfg body etag)
  unfolding compared
  compared-Sound cfg body etag parsed = elim (Bool-cases (eqb (config_hash body) pc.applied_hash)) [
    | inl same ↦ rw (same, compared) tt
    | inr new ↦ rw (new, compared) (cfg, parsed, new)
  ]

  classify_body_eq :
      (body : Bytes) (etag : Option Bytes)
      → classify_body formats pc body etag ≡ elim (parse_config formats body) [
        | none ↦ invalid
        | some cfg ↦ compared formats pc cfg body etag
      ]
  unfolding classify_body
  classify_body_eq body etag = refl

  classify_body-Sound :
      (body : Bytes) (etag : Option Bytes) → Sound (classify_body formats pc body etag)
  classify_body-Sound body etag =
      subst Sound (sym (classify_body_eq body etag)) (parsed-Sound (parse_config formats body) refl)
    where
      parsed-Sound :
          (o : Option AgentConfig)
          → parse_config formats body ≡ o
          → Sound (elim o [ none ↦ invalid | some cfg ↦ compared formats pc cfg body etag ])
      parsed-Sound none e = tt
      parsed-Sound (some cfg) e = compared-Sound cfg body etag e

  classify_response-Sound : (r : HttpResponse) → Sound (classify_response formats pc r)
  unfolding classify_response
  classify_response-Sound r = elim (Bool-cases (r.status == 304)) [
    | inl y ↦ rw y tt
    | inr n ↦ rw n (elim (Bool-cases (r.status == 200)) [
      | inl y ↦ rw y (elim (Bool-cases (all is_ascii_whitespace r.body)) [
        | inl blank ↦ rw blank tt
        | inr some_text ↦ rw some_text (classify_body-Sound (from_utf8_lossy r.body) r.etag)
      ])
      | inr other ↦ rw other tt
    ])
  ]

  classify_parsed-Sound : (p : Parsed) → Sound (classify_parsed formats pc p)
  unfolding classify_parsed
  classify_parsed-Sound (response r) = classify_response-Sound r
  classify_parsed-Sound unparseable = tt
  classify_parsed-Sound panicked = tt

  poll_once-Sound : (c : Curl) → Sound (poll_once formats pc c)
  unfolding poll_once
  poll_once-Sound missing = tt
  poll_once-Sound failed = tt
  poll_once-Sound (printed true stdout) = classify_parsed-Sound (parse_http_response stdout)
  poll_once-Sound (printed false stdout) = tt

  -- The poller has not touched the file and asked for no reload; or it has stopped, asked for one, and
  -- the file is a text that was approved. Its delay stays between the interval and the cap.
  abbrev pub Governed : Bytes → Poller → Type 0
  Governed config p =
      (((p.reloads ≡ false) × (p.config ≡ config))
        ⊎ ((p.reloads ≡ true) × (p.stopped ≡ true) × Approved p.config))
      × (min pc.interval backoff_cap ≤ p.delay)
      × (p.delay ≤ max pc.interval backoff_cap)

  backoff_bounds :
      (d : ℕ)
      → min pc.interval backoff_cap ≤ d
      → (min pc.interval backoff_cap ≤ next_backoff d backoff_cap)
        × (next_backoff d backoff_cap ≤ max pc.interval backoff_cap)
  unfolding next_backoff
  backoff_bounds d h = omega arith

  on_poll-Governed :
      (config : Bytes) (o : Poll) (writes : Bool) (p : Poller)
      → Sound o
      → p.reloads ≡ false
      → Governed config p
      → Governed config (on_poll pc.interval o writes p)
  unfolding on_poll
  on_poll-Governed config not_modified writes p s r (g, lo, hi) = (g, omega arith, omega arith)
  on_poll-Governed config (unchanged etag) writes p s r (g, lo, hi) = (g, omega arith, omega arith)
  on_poll-Governed config invalid writes p s r (g, lo, hi) = (g, omega arith, omega arith)
  on_poll-Governed config (changed c) true p s r (g, lo, hi) = (inr (refl, refl, s), lo, hi)
  on_poll-Governed config (changed c) false p s r (g, lo, hi) = (g, omega arith, omega arith)
  on_poll-Governed config curl_missing writes p s r (inl g, lo, hi) = (inl g, lo, hi)
  on_poll-Governed config curl_missing writes p s r (inr (y, x, a), lo, hi) =
      absurd (false≢true (sym r ∙ y))
  on_poll-Governed config fetch_failed writes p s r (g, lo, hi) =
      let (l, h) = backoff_bounds p.delay lo in (g, l, h)
  on_poll-Governed config task_panicked writes p s r (inl g, lo, hi) = (inl g, lo, hi)
  on_poll-Governed config task_panicked writes p s r (inr (y, x, a), lo, hi) =
      absurd (false≢true (sym r ∙ y))

  on_turn-Governed :
      (config : Bytes) (t : Turn) (p : Poller)
      → p.reloads ≡ false
      → Governed config p
      → Governed config (on_turn formats pc t p)
  unfolding on_turn
  on_turn-Governed config cancelled p r (inl g, lo, hi) = (inl g, lo, hi)
  on_turn-Governed config cancelled p r (inr (y, x, a), lo, hi) = absurd (false≢true (sym r ∙ y))
  on_turn-Governed config (polled curl writes) p r g =
      on_poll-Governed config (poll_once formats pc curl) writes p (poll_once-Sound curl) r g

  -- Only a poller that has stopped has asked for a reload.
  not_reloaded :
      (config : Bytes) (p : Poller) → p.stopped ≡ false → Governed config p → p.reloads ≡ false
  not_reloaded config p e (inl (r, same), lo, hi) = r
  not_reloaded config p e (inr (y, x, a), lo, hi) = absurd (false≢true (sym e ∙ x))

  poll_loop_over :
      (t : Turn) (ts : List Turn) (p : Poller)
      → p.stopped ≡ true
      → poll_loop formats pc (t ∷ ts) p ≡ p
  unfolding poll_loop
  poll_loop_over t ts p e =
      ap
        (λ b. elim b as (λ _. Poller) [
          | true ↦ p
          | false ↦ poll_loop formats pc ts (on_turn formats pc t p)
        ])
        e

  poll_loop_runs :
      (t : Turn) (ts : List Turn) (p : Poller)
      → p.stopped ≡ false
      → poll_loop formats pc (t ∷ ts) p ≡ poll_loop formats pc ts (on_turn formats pc t p)
  unfolding poll_loop
  poll_loop_runs t ts p e =
      ap
        (λ b. elim b as (λ _. Poller) [
          | true ↦ p
          | false ↦ poll_loop formats pc ts (on_turn formats pc t p)
        ])
        e

  poll_loop-Governed :
      (config : Bytes) (ts : List Turn) (p : Poller)
      → Governed config p
      → Governed config (poll_loop formats pc ts p)
  unfolding poll_loop
  poll_loop-Governed config [] p g = g
  poll_loop-Governed config (t ∷ ts) p g = elim (Bool-cases p.stopped) [
    | inl over ↦ subst (Governed config) (sym (poll_loop_over t ts p over)) g
    | inr runs ↦ subst (Governed config) (sym (poll_loop_runs t ts p runs)) (
        poll_loop-Governed config ts (on_turn formats pc t p)
          (on_turn-Governed config t p (not_reloaded config p runs g) g))
  ]

  idle-Governed :
      (config : Bytes) (stopped : Bool) → Governed config (idle formats pc config stopped)
  idle-Governed config stopped = (inl (refl, refl), omega arith, omega arith)

  -- Whatever the server answers and whatever fails: the configuration is untouched and no reload is
  -- asked for, or the poller has stopped, asked for one, and the file is a whole text that is accepted
  -- and whose hash is new. The delay stays between the interval and the cap.
  pub run_poller-Governed :
      (turns : List Turn) (config : Bytes) → Governed config (run_poller formats pc turns config)
  unfolding run_poller
  run_poller-Governed turns config =
      either (starts_with (codes "https://") pc.server && not (pc.interval == 0))
    where
      either :
          (b : Bool)
          → Governed config (
              if b
              then poll_loop formats pc turns (idle formats pc config false)
              else idle formats pc config true)
      either true =
          poll_loop-Governed config turns (idle formats pc config false)
            (idle-Governed config false)
      either false = idle-Governed config true
