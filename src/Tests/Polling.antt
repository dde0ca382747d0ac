-- ===== src/Tests/Polling.antt =====
-- Concrete inputs for src/remote_config.rs.
use witness.Prelude.{◌≡◌, refl, true, none, some, List, [], ◌∷◌}
use witness.Prelude.Str.{Bytes, codes}
use witness.Config.{AgentConfig, Formats}
use witness.Remote.Poller.{PollerConfig, printed, failed, Turn, polled, run_poller}
use witness.Remote.Authority.{Governed, run_poller-Governed}

abbrev key_example : Bytes
key_example = codes "0123456789abcdef0123456789abcdef"

abbrev config_example : AgentConfig
config_example = record {
  api_key = key_example;
  endpoint = codes "logs.example.com:1";
  server = none;
  eventlog_event_ids = none;
  multiline_start_pattern = none;
}

abbrev formats_example : Formats
formats_example = record { from_str = λ s. some config_example; is_regex = λ s. true }

abbrev poller_example : PollerConfig
poller_example = record {
  server = codes "https://example.com";
  api_key = key_example;
  endpoint = codes "logs.example.com:1";
  interval = 60000;
  applied_hash = codes "0000000000000000";
}

abbrev response_example : Bytes
response_example = codes "HTTP/1.1 200 OK\r\nETag: x\r\n\r\nkey\n"

-- The first poll fails; the second brings another configuration, which is written.
abbrev turns_example : List Turn
turns_example = polled failed true ∷ polled (printed true response_example) true ∷ []

applies :
    (run_poller formats_example poller_example turns_example (codes "old")).config ≡ codes "key\n"
unfolding run_poller
applies = refl

run_poller-Governed_example :
    Governed formats_example poller_example
      (codes "old")
      (run_poller formats_example poller_example turns_example (codes "old"))
run_poller-Governed_example =
    run_poller-Governed formats_example poller_example turns_example (codes "old")
