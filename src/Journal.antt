-- ===== src/Journal.antt =====
-- src/logs/journal.rs: one entry of the journal, as the JSON line that journalctl prints for it.
pub mod Reader
pub mod Attempt
pub mod Delivery
pub mod Saved
pub mod Tail
pub mod Cursor
pub mod Resume
pub mod Restarts
use witness.Prelude.{
  Bool, not, ◌&&◌, ◌||◌, Option, none, some, List, [], ◌∷◌, ◌++◌, if◌then◌else◌, option_or, any,
  is_empty,
}
use witness.Prelude.Str.{Bytes, codes, eqb, starts_with}
use witness.Std.Case.{Case}
use witness.Std.Trim.{trim}
use witness.Crates.{Crates, object}
use witness.Level.{LogLevel, emergency, alert, critical, error, warning, notice, info, debug}
use witness.Sink.{Entry, Sink, try_log_with_service}
use witness.Json.{object_unless_empty}
use witness.Structured.Classify.{split_message}

pub record ServiceFilter : Type 0 where
  pub include : List Bytes
  pub exclude : List Bytes

-- Whether an entry from a program must be dropped.
unfoldable pub excludes : ServiceFilter → Bytes → Bool
unfolding eqb
excludes filter program =
    any (λ s. eqb s program) filter.exclude
    || (not (is_empty filter.include) && not (any (λ s. eqb s program) filter.include))

pub record JournalEntry (Value : Type 0) : Type 0 where
  pub message : Option Bytes
  pub syslog_identifier : Option Bytes
  pub comm : Option Bytes
  pub priority : Option Bytes
  pub cursor : Option Bytes
  pub extras : List (Bytes × Value)

pub data ProcessResult : Type 0 where
  handled : Option Bytes → ProcessResult
  channel_full : ProcessResult
  parse_failed : ProcessResult

abbrev pub self_identifier : Bytes
self_identifier = codes "witness"

abbrev pub systemd_meta_denylist : List Bytes
systemd_meta_denylist = codes "SYSLOG_FACILITY" ∷ codes "SYSLOG_PID" ∷ codes "SYSLOG_RAW" ∷ []

unfoldable pub priority_to_level : Bytes → Option LogLevel
unfolding eqb
priority_to_level p =
    if eqb p (codes "0")
    then some emergency
    else if eqb p (codes "1")
    then some alert
    else if eqb p (codes "2")
    then some critical
    else if eqb p (codes "3")
    then some error
    else if eqb p (codes "4")
    then some warning
    else if eqb p (codes "5")
    then some notice
    else if eqb p (codes "6")
    then some info
    else if eqb p (codes "7")
    then some debug
    else none

-- Fields that the application did not write.
unfoldable pub is_meta : Bytes → Bool
unfolding starts_with eqb
is_meta k = starts_with (codes "_") k || any (λ s. eqb s k) systemd_meta_denylist

abbrev pub level_of : Option Bytes → LogLevel
level_of none = info
level_of (some p) = option_or (priority_to_level p) info

module _ (crates : Crates) (case : Case) where
  open crates use {Value, Map, view, entries, collect, object_value}

  unfoldable pub app_fields : List (Bytes × Value) → List (Bytes × Value)
  unfolding is_meta
  app_fields [] = []
  app_fields ((k, v) ∷ rest) =
      if is_meta k then app_fields rest else (case.to_lowercase k, v) ∷ app_fields rest

  -- Inserting pair by pair is collecting them.
  unfoldable pub app_fields_payload : List (Bytes × Value) → Option Value
  unfolding app_fields
  app_fields_payload extras = object_unless_empty crates (collect (app_fields extras))

  abbrev pub merge_objects : Value → Value → Value
  merge_objects m p = elim (view m) [
    | object a ↦ elim (view p) [
      | object b ↦ object_value (collect (entries a ++ entries b))
      | _ ↦ m
    ]
    | _ ↦ m
  ]

  unfoldable pub merge_payloads : List (Bytes × Value) → Option Value → Option Value
  unfolding app_fields_payload
  merge_payloads extras parsed = elim (app_fields_payload extras) [
    | none ↦ parsed
    | some m ↦ elim parsed [ none ↦ some m | some p ↦ some (merge_objects m p) ]
  ]

  abbrev pub program_of : JournalEntry Value → Bytes
  program_of e = elim e.syslog_identifier [ some s ↦ s | none ↦ option_or e.comm (codes "unknown") ]

  abbrev pub is_skipped : ServiceFilter → Bytes → Bytes → Bool
  is_skipped filter message program =
      is_empty message || eqb program self_identifier || excludes filter program

  unfoldable pub entry_to_ship : JournalEntry Value → Bytes → Entry Value
  unfolding priority_to_level split_message merge_payloads
  entry_to_ship e message =
      let (body, parsed) = split_message crates message in
      record {
        level = level_of e.priority;
        message = body;
        component = none;
        service = some (program_of e);
        payload = merge_payloads e.extras parsed;
      }

  -- What an entry comes to before the sink is asked: `none` for one that is filtered or empty.
  unfoldable pub wanted : ServiceFilter → JournalEntry Value → Option (Entry Value)
  unfolding entry_to_ship excludes eqb
  wanted filter e = elim e.message [
    | none ↦ none
    | some message ↦
        if is_skipped filter message (program_of e) then none else some (entry_to_ship e message)
  ]

  module _ (decode : Bytes → Option (JournalEntry Value)) where
    unfoldable pub ship_wanted :
        Option Bytes → Option (Entry Value) → Sink Value → ProcessResult × Sink Value
    ship_wanted cursor none sink = (handled cursor, sink)
    ship_wanted cursor (some entry) sink =
        let (sent, sink') = try_log_with_service sink entry in
        (if sent then handled cursor else channel_full, sink')

    unfoldable pub process_entry : Bytes → ServiceFilter → Sink Value → ProcessResult × Sink Value
    unfolding ship_wanted wanted trim
    process_entry json_line filter sink = elim (decode (trim json_line)) [
      | none ↦ (parse_failed, sink)
      | some e ↦ ship_wanted e.cursor (wanted filter e) sink
    ]
