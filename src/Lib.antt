-- ===== src/Lib.antt =====
-- A model of witness, an agent that tails log files and reads metrics, and forwards both.
--
-- The program. `src/main.rs` starts the sources of logs and the collectors of metrics, which share
-- one sink (`src/sink.rs`). The tailer (`src/logs/watcher.rs`) polls the files that match its
-- patterns: it reads new bytes line by line (`src/logs/text.rs`), and either ships each line or joins
-- lines into records (`src/logs/multiline.rs`). What is shipped is classified first
-- (`src/logs/structured.rs`, `src/logs/syslog.rs`). The sink may refuse an entry when its channel is
-- full; the tailer then stops without moving its position, so that the file is the buffer. The other
-- sources do the same with the command that they read from: the journal of systemd
-- (`src/logs/journal.rs`), the unified log of macOS (`src/logs/unified.rs`, `unified_parse.rs`) and the
-- event log of Windows (`src/logs/eventlog_parse.rs`). Each saves how far it has come in a checkpoint
-- file (`src/logs/source.rs`), and resumes there. Collectors (`src/metrics/linux`) parse the files of
-- /proc and send counters and gauges. A server can replace the configuration (`src/remote_config.rs`).
--
-- The files, and the code they model:
--   Prelude, Prelude/*: names of the libraries, lists and bytes, Boolean tests.
--   Utf8, Std/*: what the code uses of Rust's standard library: lossy decoding, character
--     boundaries, `find`, `split`, `lines`, `trim`, `parse`.
--   Assoc: `HashMap`, as an association list.
--   Crates: memchr, simdutf8 and serde_json, as a record of functions with their laws.
--   Text: `lossy` and `read_line`; a reader is the list of the answers of its `fill_buf`, with
--     interruptions and errors, and `reads` is what a loop of calls of `read_line` meets.
--   Syslog, Level, Structured/*: `syslog::parse`, `classify_line` and its parts.
--   Sink: `try_log_with_service`, `log_with_service` and `log`; the client of the SDK is the answers
--     that it will give, and `taken` is the list of the entries that were accepted.
--     Sink/Labels, Tags, Metrics: `with_merged`, `leak_tags` and the metric methods.
--   Watcher/State, Lines: a `TailedFile`, `push_partial`, `try_emit_line`, `read_lines`,
--     `drain_retained`. Delivery, Polls, Complete, Rotated and Found
--     are about them.
--   Watcher/Identity, Registry, Poll, Schedule: `detect_bom`, `find_rotated_file`, `register_file`,
--     `check_and_read`, `poll_all` and the arms of the loop of `tail_files`. What the operating
--     system answers during a poll is an argument, `FileSystem`, and so is the clock. Index, Register,
--     Kept, Ticks, Ticking and Pace are about them.
--   Watcher/Offsets: `save_offsets` and `load_offsets`, as texts.
--   Multiline/Record, Loop: the aggregator, `commit_line`, `ship`, `read_live`, `drain`,
--     `flush_if_expired`. Offsets, Invariant, Refusal, Due
--     and Kept are about them.
--   Source: `write_checkpoint` and `next_backoff`; a checkpoint file is its content, with what the file
--     system will answer to each attempt to replace it. Json: `serde_json::Map` as the sources use it.
--   Journal: `process_entry` and its parts. Journal/Reader: `run_journalctl`, `handle_entry` and the
--     cursor. Journal/Tail: `tail_journal`, which starts it again. Attempt, Delivery, Saved, Cursor, Resume
--     and Restarts are about them.
--   Unified/Parse: `process_entry` of the unified log. Unified/Reader: `read_stream`, `ship_line` and
--     `ReaderState::record`. Unified/Cycle: `run_backfill`, `run_live` and `run_cycle`. Attempt,
--     Delivery and Backfill are about them.
--   Eventlog/Entry, Xml: `parse_event_xml`, over the events that quick-xml answers. Eventlog/Severity,
--     Process: `resolve_severity`, `body_of`, `build_payload`, `process_entry`, and the bookmarks.
--     Values is about the parser.
--   Config: `parse_config` and `parse_duration`; of the configuration the fields that are checked.
--   Remote/Http, Poller: `parse_http_response`, `config_hash`, `classify_response`, `poll_once` and
--     `run_poller`. Authority is about them.
--   Eventlog: `EventIdFilter`, `EventFilter`, and `validate_api_key` of `src/config.rs`.
--   Metrics/*: `DeviceFilter` and the network, disk, CPU, TCP, process, container and control group
--     collectors. A collector returns the list of the metrics it sends; the arithmetic of `f64` is the
--     record `Floats`, and glob patterns are the record `Globs`.
--     Metrics/Space: the bounded reads of file systems; Flags, Reading and Outstanding are about them.
--   Tests: concrete inputs.
--
-- Choices. A text is the list of its bytes, so that lengths and offsets are the source's. Counts of
-- bytes and positions in files are natural numbers, since they do not come near 2 ^ 64; a number that
-- is parsed is checked against its limit, and sums of counters keep their `% 2 ^ 64`. Loops are
-- recursion on the list that they consume. Three use fuel: `parse_fields` and `scan_window`, which are
-- given one more than the bytes there are at most, and `reads_in`, which is given one more than the
-- size of the reader: a round of a loop reads a byte at least. The two branches of a `Cow` are one text.
-- The readers of commands are machines that move at each `await`: what the command prints is a list of
-- the answers of `read_line`, and a list of events says which branch of each `select!` is taken (a line
-- is there, the timer has elapsed, the task is cancelled), so that a theorem about all lists of events
-- is one about all interleavings. What a command prints for its arguments is a function of them.
--
-- Not modelled: the collectors of memory and load, the macOS collectors, the subscription to the event
-- log, the installation, the deserialisation by serde and toml, timers and tasks, the loop that starts a
-- failed reader of the unified log again, the expansion of globs, and the test doubles of the sink.
pub mod Prelude
pub mod Utf8
pub mod Std
pub mod Assoc
pub mod Crates
pub mod Level
pub mod Syslog
pub mod Structured
pub mod Sink
pub mod Source
pub mod Json
pub mod Journal
pub mod Unified
pub mod Watcher
pub mod Multiline
pub mod Text
pub mod Config
pub mod Remote
pub mod Metrics
pub mod Eventlog
mod Tests
