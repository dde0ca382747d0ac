-- ===== src/Remote/Poller.antt =====
-- src/remote_config.rs: `classify_response`, `poll_once` and `run_poller`. What curl prints in a poll,
-- whether the configuration could be replaced, and whether the task was cancelled are arguments.
use witness.Prelude.{
  ℕ, Bool, true, false, not, ◌&&◌, ◌||◌, Option, none, some, List, [], ◌∷◌, ◌++◌, reverse, ◌==◌,
  if◌then◌else◌, is_some, all,
}
use witness.Prelude.Str.{Bytes, codes, eqb, starts_with}
use witness.Utf8.{from_utf8_lossy}
use witness.Source.{next_backoff}
use witness.Config.{AgentConfig, Formats, parse_config}
use witness.Remote.Http.{
  HttpResponse, Parsed, response, unparseable, panicked, parse_http_response, config_hash,
}

-- Half an hour, in milliseconds.
abbrev pub backoff_cap : ℕ
backoff_cap = 1800000

pub record PollerConfig : Type 0 where
  pub server : Bytes
  pub api_key : Bytes
  pub endpoint : Bytes
  pub interval : ℕ
  pub applied_hash : Bytes

pub record Change : Type 0 where
  pub body : Bytes
  pub hash : Bytes
  pub endpoint_changed : Bool
  pub api_key_changed : Bool
  pub server_dropped : Bool

-- `PollOutcome` and `PollError`, without the texts of the errors, and a panic of the task.
pub data Poll : Type 0 where
  not_modified : Poll
  unchanged : Option Bytes → Poll
  changed : Change → Poll
  invalid : Poll
  curl_missing : Poll
  fetch_failed : Poll
  task_panicked : Poll

-- `u8::is_ascii_whitespace`: no vertical tab.
abbrev pub is_ascii_whitespace : ℕ → Bool
is_ascii_whitespace c = c == b' ' || c == b'\t' || c == b'\n' || c == 12 || c == b'\r'

pub data Curl : Type 0 where
  missing : Curl
  failed : Curl
  printed : Bool → Bytes → Curl

unfoldable pub url : PollerConfig → Bytes
url pc = trim_slashes (reverse pc.server) ++ codes "/v1/agent/config"
  where
    trim_slashes : Bytes → Bytes
    trim_slashes [] = []
    trim_slashes (c ∷ cs) = if c == b'/' then trim_slashes cs else reverse (c ∷ cs)

module _ (formats : Formats) (pc : PollerConfig) where
  unfoldable pub compared : AgentConfig → Bytes → Option Bytes → Poll
  unfolding config_hash eqb
  compared cfg body etag =
      if eqb (config_hash body) pc.applied_hash
      then unchanged etag
      else changed (record {
        body = body;
        hash = config_hash body;
        endpoint_changed = not (eqb cfg.endpoint pc.endpoint);
        api_key_changed = not (eqb cfg.api_key pc.api_key);
        server_dropped = not (is_some cfg.server);
      })

  unfoldable pub classify_body : Bytes → Option Bytes → Poll
  unfolding parse_config compared
  classify_body body etag = elim (parse_config formats body) [
    | none ↦ invalid
    | some cfg ↦ compared cfg body etag
  ]

  unfoldable pub classify_response : HttpResponse → Poll
  unfolding classify_body from_utf8_lossy
  classify_response resp =
      if resp.status == 304
      then not_modified
      else if resp.status == 200
      then (if all is_ascii_whitespace resp.body
          then fetch_failed
          else classify_body (from_utf8_lossy resp.body) resp.etag)
      else fetch_failed

  unfoldable pub classify_parsed : Parsed → Poll
  unfolding classify_response
  classify_parsed (response r) = classify_response r
  classify_parsed unparseable = fetch_failed
  classify_parsed panicked = task_panicked

  unfoldable pub poll_once : Curl → Poll
  unfolding classify_parsed parse_http_response
  poll_once missing = curl_missing
  poll_once failed = fetch_failed
  poll_once (printed success stdout) =
      if success then classify_parsed (parse_http_response stdout) else fetch_failed

-- One turn of the loop: the task is cancelled while it sleeps, or it polls; `Bool` says whether
-- `write_config_atomic` works, which replaces the file as a whole or not at all.
pub data Turn : Type 0 where
  cancelled : Turn
  polled : Curl → Bool → Turn

-- `config` is the file's text, and `reloads` whether a reload was asked for.
pub record Poller : Type 0 where
  pub delay : ℕ
  pub etag : Option Bytes
  pub config : Bytes
  pub reloads : Bool
  pub stopped : Bool

abbrev newer_etag : Option Bytes → Option Bytes → Option Bytes
newer_etag none old = old
newer_etag (some e) old = some e

-- What a poll leads to.
unfoldable pub on_poll : ℕ → Poll → Bool → Poller → Poller
unfolding next_backoff
on_poll base not_modified writes p = record p { delay = base }
on_poll base (unchanged new) writes p = record p { delay = base; etag = newer_etag new p.etag }
on_poll base invalid writes p = record p { delay = base }
on_poll base (changed c) writes p =
    if writes
    then record p { config = c.body; reloads = true; stopped = true }
    else record p { delay = base }
on_poll base curl_missing writes p = record p { stopped = true }
on_poll base fetch_failed writes p = record p { delay = next_backoff p.delay backoff_cap }
on_poll base task_panicked writes p = record p { stopped = true }

module _ (formats : Formats) (pc : PollerConfig) where
  unfoldable pub on_turn : Turn → Poller → Poller
  unfolding poll_once on_poll
  on_turn cancelled p = record p { stopped = true }
  on_turn (polled curl writes) p = on_poll pc.interval (poll_once formats pc curl) writes p

  unfoldable pub poll_loop : List Turn → Poller → Poller
  unfolding on_turn
  poll_loop [] p = p
  poll_loop (t ∷ ts) p = elim p.stopped [ true ↦ p | false ↦ poll_loop ts (on_turn t p) ]

  abbrev pub idle : Bytes → Bool → Poller
  idle config stopped = record {
    delay = pc.interval;
    etag = none;
    config = config;
    reloads = false;
    stopped = stopped;
  }

  unfoldable pub run_poller : List Turn → Bytes → Poller
  unfolding poll_loop starts_with
  run_poller turns config =
      if starts_with (codes "https://") pc.server && not (pc.interval == 0)
      then poll_loop turns (idle config false)
      else idle config true
