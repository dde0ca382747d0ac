-- ===== src/Eventlog/Process.antt =====
-- src/logs/eventlog_parse.rs: an event on its way to the sink, and the bookmark.
use witness.Prelude.{
  ℕ, Bool, ◌||◌, Option, none, some, List, [], ◌∷◌, ◌++◌, ltb, ◌==◌, if◌then◌else◌, length,
  is_empty,
}
use witness.Prelude.Str.{Bytes, codes, within, is_ascii_alphanumeric, eqb}
use witness.Prelude.Int.{ℤ, pos}
use witness.Std.Case.{Case}
use witness.Std.Trim.{trim}
use witness.Crates.{Crates}
use witness.Json.{new_map, insert, or_insert, insert_non_empty, object_unless_empty}
use witness.Sink.{Entry, Sink, try_log_with_service}
use witness.Source.{CheckpointFile, write_checkpoint, read_trimmed}
use witness.Eventlog.{EventFilter, is_excluded}
use witness.Eventlog.Entry.{EventEntry}
use witness.Eventlog.Xml.{Xml, parse_event_xml}
use witness.Eventlog.Severity.{
  channel_full, handled, parse_failed, ProcessResult, max_xml_len, self_provider, resolve_severity,
}

abbrev pub or_unknown : Bytes → Bytes
or_unknown [] = codes "unknown"
or_unknown (c ∷ cs) = c ∷ cs

unfoldable pub service_of : EventEntry → Bytes
service_of e = or_unknown e.provider

-- The values that are not white, trimmed.
unfoldable pub non_empty_values : List (Option Bytes × Bytes) → List Bytes
unfolding trim
non_empty_values [] = []
non_empty_values ((n, v) ∷ rest) =
    if is_empty (trim v) then non_empty_values rest else trim v ∷ non_empty_values rest

unfoldable pub join_onto : Bytes → List Bytes → Bytes
join_onto body [] = body
join_onto body (p ∷ ps) = join_onto (body ++ codes ", " ++ p) ps

abbrev body_of_values : EventEntry → List Bytes → Bytes
body_of_values e [] = or_unknown e.provider ++ codes " event " ++ e.event_id
body_of_values e (first ∷ parts) = join_onto first parts

abbrev body_or : Bytes → Bytes → Bytes
body_or [] d = d
body_or (c ∷ cs) d = c ∷ cs

abbrev trimmed_message : Option Bytes → Bytes
trimmed_message none = []
trimmed_message (some m) = trim m

unfoldable pub body_of : EventEntry → Option Bytes → Bytes
unfolding non_empty_values join_onto trim
body_of e formatted_message =
    body_or (trimmed_message formatted_message) (body_of_values e (non_empty_values e.fields))

module _ (crates : Crates) (case : Case) (of_i64 : ℤ → crates.Value) where
  open crates use {Value, Map, text_value}

  abbrev insert_level : Option ℕ → Map → Map
  insert_level none m = m
  insert_level (some l) m = insert crates (codes "level") (of_i64 (pos l)) m

  abbrev insert_outcome : Option Bytes → Map → Map
  insert_outcome none m = m
  insert_outcome (some o) m = insert crates (codes "outcome") (text_value o) m

  unfoldable pub insert_fields : List (Option Bytes × Bytes) → Map → Map
  unfolding or_insert
  insert_fields [] m = m
  insert_fields ((none, v) ∷ rest) m = insert_fields rest m
  insert_fields ((some n, v) ∷ rest) m =
      insert_fields rest (or_insert crates (case.to_lowercase n) (text_value v) m)

  -- `insert_non_empty` for each field, in order.
  unfoldable pub insert_all : List (Bytes × Bytes) → Map → Map
  unfolding insert_non_empty
  insert_all [] m = m
  insert_all ((k, v) ∷ rest) m = insert_all rest (insert_non_empty crates k v m)

  unfoldable pub build_payload : EventEntry → Option Bytes → Option Value
  unfolding insert_all insert insert_fields
  build_payload e outcome =
      let first =
        insert_all
          ((codes "provider", e.provider)
            ∷ (codes "event_id", e.event_id)
            ∷ (codes "qualifiers", e.qualifiers)
            ∷ [])
          (new_map crates) in
      let second =
        insert_all
          ((codes "task", e.task)
            ∷ (codes "opcode", e.opcode)
            ∷ (codes "keywords", e.keywords)
            ∷ (codes "version", e.version)
            ∷ (codes "channel", e.channel)
            ∷ (codes "computer", e.computer)
            ∷ (codes "record_id", e.record_id)
            ∷ (codes "time_created", e.time_created)
            ∷ (codes "activity_id", e.activity_id)
            ∷ (codes "related_activity_id", e.related_activity_id)
            ∷ (codes "process_id", e.process_id)
            ∷ (codes "thread_id", e.thread_id)
            ∷ (codes "user_sid", e.user_sid)
            ∷ [])
          (insert_level e.level first) in
      object_unless_empty crates (insert_fields e.fields (insert_outcome outcome second))

  unfoldable pub entry_to_ship : EventEntry → Option Bytes → Entry Value
  unfolding resolve_severity service_of body_of build_payload
  entry_to_ship e formatted_message =
      let (level, outcome) = resolve_severity e in
      record {
        level = level;
        message = body_of e formatted_message;
        component = none;
        service = some (service_of e);
        payload = build_payload e outcome;
      }

  unfoldable pub process_parsed :
      Option EventEntry → Option Bytes → EventFilter → Sink Value → ProcessResult × Sink Value
  unfolding entry_to_ship is_excluded eqb
  process_parsed none formatted_message filter sink = (parse_failed, sink)
  process_parsed (some e) formatted_message filter sink =
      if eqb e.provider self_provider || is_excluded filter e.provider e.event_id
      then (handled, sink)
      else (let (sent, sink') = try_log_with_service sink (entry_to_ship e formatted_message) in
          (if sent then handled else channel_full, sink'))

  -- `read_events` is what quick-xml reads in a text.
  unfoldable pub process_entry :
      (Bytes → List Xml)
      → Bytes
      → Option Bytes
      → EventFilter
      → Sink Value
      → ProcessResult × Sink Value
  unfolding process_parsed parse_event_xml
  process_entry read_events xml formatted_message filter sink =
      if ltb max_xml_len (length xml)
      then (parse_failed, sink)
      else process_parsed (parse_event_xml (read_events xml)) formatted_message filter sink

abbrev is_plain : ℕ → Bool
is_plain c = is_ascii_alphanumeric c || c == b'-' || c == b'_'

-- Character by character: of one that is not ASCII, the first byte is replaced and the others go.
unfoldable pub sanitize_channel : Bytes → Bytes
sanitize_channel [] = []
sanitize_channel (c ∷ cs) =
    let rest = sanitize_channel cs in
    if within 0x80 0xBF c then rest else if is_plain c then c ∷ rest else b'_' ∷ rest

-- The name of the file in the state directory.
unfoldable pub bookmark_path : Bytes → Bytes
unfolding sanitize_channel
bookmark_path channel = codes "eventlog_bookmark_" ++ sanitize_channel channel

unfoldable pub load_bookmark : CheckpointFile → Option Bytes
unfolding read_trimmed
load_bookmark file = read_trimmed file

unfoldable pub save_bookmark : CheckpointFile → Bytes → CheckpointFile
unfolding write_checkpoint
save_bookmark file xml = write_checkpoint file xml
