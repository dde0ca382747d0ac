-- ===== src/Unified/Parse.antt =====
-- src/logs/unified_parse.rs: one entry of the unified log, as the JSON line that `log` prints for it.
use witness.Prelude.{
  ℕ, ◌+◌, Bool, false, not, ◌&&◌, ◌||◌, Option, none, some, List, [], ◌∷◌, leb, if◌then◌else◌,
  option_or, drop, any,
}
use witness.Prelude.Str.{Bytes, codes, eqb, starts_with}
use witness.Prelude.Int.{ℤ}
use witness.Std.Case.{Case}
use witness.Std.Scan.{rfind}
use witness.Std.Trim.{trim}
use witness.Crates.{Crates}
use witness.Json.{new_map, insert, or_insert, insert_non_empty, object_unless_empty}
use witness.Level.{LogLevel, critical, error, notice, info, debug}
use witness.Sink.{Entry, Sink, try_log_with_service}

abbrev pub self_process : Bytes
self_process = codes "witness"

abbrev pub self_subsystem_prefix : Bytes
self_subsystem_prefix = codes "rs.tell.witness"

abbrev pub internal_fields : List Bytes
internal_fields =
    codes "threadid"
    ∷ codes "senderimageuuid"
    ∷ codes "senderimagepath"
    ∷ codes "processimageuuid"
    ∷ codes "backtrace"
    ∷ codes "traceid"
    ∷ codes "senderprogramcounter"
    ∷ codes "machtimestamp"
    ∷ codes "activityidentifier"
    ∷ codes "parentactivityidentifier"
    ∷ codes "creatoractivityid"
    ∷ codes "timezonename"
    ∷ codes "source"
    ∷ codes "formatstring"
    ∷ codes "userid"
    ∷ codes "bootuuid"
    ∷ []

pub record Checkpoint : Type 0 where
  pub boot_uuid : Bytes
  pub mach_timestamp : ℕ
  pub wall_timestamp : Bytes

pub record LogEntry (Value : Type 0) : Type 0 where
  pub event_type : Option Bytes
  pub message_type : Option Bytes
  pub event_message : Option Bytes
  pub subsystem : Option Bytes
  pub category : Option Bytes
  pub process_image_path : Option Bytes
  pub process_id : Option ℤ
  pub mach_timestamp : Option ℕ
  pub boot_uuid : Option Bytes
  pub wall_timestamp : Option Bytes
  pub extras : List (Bytes × Value)

pub data UnifiedResult : Type 0 where
  handled : Option Checkpoint → UnifiedResult
  channel_full : UnifiedResult
  parse_failed : UnifiedResult

abbrev pub checkpoint_of : Option Bytes → Option ℕ → Option Bytes → Option Checkpoint
checkpoint_of (some boot) (some mach) (some wall) =
    some (record { boot_uuid = boot; mach_timestamp = mach; wall_timestamp = wall })
checkpoint_of (some boot) (some mach) none = none
checkpoint_of (some boot) none wall = none
checkpoint_of none mach wall = none

unfoldable pub basename : Bytes → Bytes
unfolding rfind
basename path = elim (rfind b'/' path) [ none ↦ path | some i ↦ drop (i + 1) path ]

unfoldable pub message_type_to_level : Option Bytes → LogLevel
unfolding eqb
message_type_to_level none = info
message_type_to_level (some t) =
    if eqb t (codes "Fault")
    then critical
    else if eqb t (codes "Error")
    then error
    else if eqb t (codes "Default")
    then notice
    else if eqb t (codes "Debug")
    then debug
    else info

-- The dedupe of the inclusive start: an entry of the same boot that is not later.
abbrev is_old_at : Checkpoint → Option ℕ → Option Bytes → Bool
is_old_at cp (some mach) (some boot) = eqb boot cp.boot_uuid && leb mach cp.mach_timestamp
is_old_at cp (some mach) none = false
is_old_at cp none boot = false

abbrev is_own_subsystem : Option Bytes → Bool
is_own_subsystem none = false
is_own_subsystem (some s) = starts_with self_subsystem_prefix s

abbrev is_own_process : Option Bytes → Bool
is_own_process none = false
is_own_process (some p) = eqb (basename p) self_process

abbrev process_name : Option Bytes → Bytes
process_name none = []
process_name (some p) = basename p

abbrev or_unknown : Bytes → Bytes
or_unknown [] = codes "unknown"
or_unknown (c ∷ cs) = c ∷ cs

abbrev non_empty_or : Bytes → Bytes → Bytes
non_empty_or [] d = d
non_empty_or (c ∷ cs) d = c ∷ cs

unfoldable pub is_event : Option Bytes → Bool
unfolding eqb
is_event t = eqb (option_or t []) (codes "logEvent") || eqb (option_or t []) (codes "traceEvent")

module _ {Value : Type 0} where
  unfoldable pub checkpoint : LogEntry Value → Option Checkpoint
  checkpoint e = checkpoint_of e.boot_uuid e.mach_timestamp e.wall_timestamp

  unfoldable pub is_self : LogEntry Value → Bool
  unfolding basename starts_with eqb
  is_self e = is_own_subsystem e.subsystem || is_own_process e.process_image_path

  unfoldable pub service_of : LogEntry Value → Bytes
  unfolding basename
  service_of e =
      non_empty_or (option_or e.subsystem []) (or_unknown (process_name e.process_image_path))

  unfoldable pub is_old : Option Checkpoint → LogEntry Value → Bool
  unfolding eqb
  is_old none e = false
  is_old (some cp) e = is_old_at cp e.mach_timestamp e.boot_uuid

-- What an entry comes to before the sink is asked.
pub data Verdict (Value : Type 0) : Type 0 where
  skip : Option Checkpoint → Verdict Value
  ship : Entry Value → Option Checkpoint → Verdict Value

module _ (crates : Crates) (case : Case) (of_i64 : ℤ → crates.Value) where
  open crates use {Value, Map, entries}

  abbrev insert_pid : Option ℤ → Map → Map
  insert_pid none m = m
  insert_pid (some pid) m = insert crates (codes "pid") (of_i64 pid) m

  unfoldable pub insert_extras : List (Bytes × Value) → Map → Map
  unfolding or_insert eqb
  insert_extras [] m = m
  insert_extras ((k, v) ∷ rest) m =
      let lower = case.to_lowercase k in
      insert_extras rest
        (if any (λ f. eqb f lower) internal_fields then m else or_insert crates lower v m)

  unfoldable pub build_payload : LogEntry Value → Option Value
  unfolding insert_non_empty insert insert_extras basename
  build_payload e =
      let m =
        insert_non_empty crates (codes "subsystem") (option_or e.subsystem []) (new_map crates) in
      let m' = insert_non_empty crates (codes "category") (option_or e.category []) m in
      let m'' = insert_non_empty crates (codes "process") (process_name e.process_image_path) m' in
      object_unless_empty crates (insert_extras e.extras (insert_pid e.process_id m''))

  unfoldable pub entry_to_ship : LogEntry Value → Bytes → Entry Value
  unfolding message_type_to_level service_of build_payload
  entry_to_ship e message = record {
    level = message_type_to_level e.message_type;
    message = message;
    component = none;
    service = some (service_of e);
    payload = build_payload e;
  }

  abbrev judge_message : LogEntry Value → Option Bytes → Verdict Value
  judge_message e none = skip (checkpoint e)
  judge_message e (some []) = skip (checkpoint e)
  judge_message e (some (c ∷ cs)) = ship (entry_to_ship e (c ∷ cs)) (checkpoint e)

  -- The early returns of `process_entry`, in their order.
  unfoldable pub judge : Option Checkpoint → LogEntry Value → Verdict Value
  unfolding is_event is_old is_self checkpoint entry_to_ship
  judge dedupe e =
      if not (is_event e.event_type)
      then skip (checkpoint e)
      else if is_old dedupe e
      then skip none
      else if is_self e
      then skip (checkpoint e)
      else judge_message e e.event_message

  unfoldable pub carry_out : Verdict Value → Sink Value → UnifiedResult × Sink Value
  carry_out (skip pos) sink = (handled pos, sink)
  carry_out (ship entry pos) sink =
      let (sent, sink') = try_log_with_service sink entry in
      (if sent then handled pos else channel_full, sink')

  module _ (decode : Bytes → Option (LogEntry Value)) where
    unfoldable pub process_entry :
        Bytes → Option Checkpoint → Sink Value → UnifiedResult × Sink Value
    unfolding judge carry_out trim
    process_entry line dedupe sink = elim (decode (trim line)) [
      | none ↦ (parse_failed, sink)
      | some e ↦ carry_out (judge dedupe e) sink
    ]
