-- ===== src/Eventlog/Entry.antt =====
-- src/logs/eventlog_parse.rs: an event, and the fields that its `System` elements set.
use witness.Prelude.{ℕ, ◌%◌, Option, none, some, List, [], ◌∷◌, ◌++◌, ltb, if◌then◌else◌}
use witness.Prelude.Str.{Bytes, codes, eqb}
use witness.Std.Number.{parse_uint, u32}
use witness.Std.Print.{print}

pub record EventEntry : Type 0 where
  pub provider : Bytes
  pub event_id : Bytes
  pub qualifiers : Bytes
  pub level : Option ℕ
  pub task : Bytes
  pub opcode : Bytes
  pub keywords : Bytes
  pub version : Bytes
  pub time_created : Bytes
  pub computer : Bytes
  pub channel : Bytes
  pub record_id : Bytes
  pub activity_id : Bytes
  pub related_activity_id : Bytes
  pub process_id : Bytes
  pub thread_id : Bytes
  pub user_sid : Bytes
  pub fields : List (Option Bytes × Bytes)

abbrev pub default : EventEntry
default = record {
  provider = [];
  event_id = [];
  qualifiers = [];
  level = none;
  task = [];
  opcode = [];
  keywords = [];
  version = [];
  time_created = [];
  computer = [];
  channel = [];
  record_id = [];
  activity_id = [];
  related_activity_id = [];
  process_id = [];
  thread_id = [];
  user_sid = [];
  fields = [];
}

-- `malformed`: the attributes of the element, or the value, cannot be read.
pub data Attribute : Type 0 where
  absent malformed : Attribute
  value : Bytes → Attribute

pub record Element : Type 0 where
  pub name : Bytes
  pub attribute : Bytes → Attribute

unfoldable pub mask_event_id : Bytes → Bytes
unfolding parse_uint print
mask_event_id raw = elim (parse_uint u32 raw) [
  | none ↦ raw
  | some n ↦ if ltb 65535 n then print (n % 65536) else raw
]

-- The field from an attribute if it is there; `none` for a malformed element.
abbrev pub set_from_attr : Attribute → Bytes → Option Bytes
set_from_attr absent field = some field
set_from_attr malformed field = none
set_from_attr (value v) field = some v

abbrev pub attr : Attribute → Option (Option Bytes)
attr absent = some none
attr malformed = none
attr (value v) = some (some v)

abbrev pub set_field : Option Bytes → (Bytes → EventEntry) → Option EventEntry
set_field none f = none
set_field (some v) f = some (f v)

abbrev pub set_fields :
    Option Bytes → Option Bytes → (Bytes → Bytes → EventEntry) → Option EventEntry
set_fields (some v) (some w) f = some (f v w)
set_fields (some v) none f = none
set_fields none w f = none

-- The fields of `System` that attributes carry.
unfoldable pub open_system : Element → Bytes → EventEntry → Option EventEntry
unfolding eqb
open_system e name entry =
    if eqb name (codes "Provider")
    then set_field (set_from_attr (e.attribute (codes "Name")) entry.provider)
        (λ v. record entry { provider = v })
    else if eqb name (codes "EventID")
    then set_field (set_from_attr (e.attribute (codes "Qualifiers")) entry.qualifiers)
        (λ v. record entry { qualifiers = v })
    else if eqb name (codes "TimeCreated")
    then set_field (set_from_attr (e.attribute (codes "SystemTime")) entry.time_created)
        (λ v. record entry { time_created = v })
    else if eqb name (codes "Correlation")
    then set_fields (set_from_attr (e.attribute (codes "ActivityID")) entry.activity_id)
        (set_from_attr (e.attribute (codes "RelatedActivityID")) entry.related_activity_id)
        (λ v w. record entry { activity_id = v; related_activity_id = w })
    else if eqb name (codes "Execution")
    then set_fields (set_from_attr (e.attribute (codes "ProcessID")) entry.process_id)
        (set_from_attr (e.attribute (codes "ThreadID")) entry.thread_id)
        (λ v w. record entry { process_id = v; thread_id = w })
    else if eqb name (codes "Security")
    then set_field (set_from_attr (e.attribute (codes "UserID")) entry.user_sid)
        (λ v. record entry { user_sid = v })
    else some entry

-- The fields of `System` that texts carry.
unfoldable pub close_system : Bytes → Bytes → EventEntry → EventEntry
unfolding eqb mask_event_id parse_uint
close_system name trimmed entry =
    if eqb name (codes "EventID")
    then record entry { event_id = mask_event_id trimmed }
    else if eqb name (codes "Level")
    then record entry { level = parse_uint 256 trimmed }
    else if eqb name (codes "Task")
    then record entry { task = trimmed }
    else if eqb name (codes "Opcode")
    then record entry { opcode = trimmed }
    else if eqb name (codes "Keywords")
    then record entry { keywords = trimmed }
    else if eqb name (codes "Version")
    then record entry { version = trimmed }
    else if eqb name (codes "EventRecordID")
    then record entry { record_id = trimmed }
    else if eqb name (codes "Channel")
    then record entry { channel = trimmed }
    else if eqb name (codes "Computer")
    then record entry { computer = trimmed }
    else entry

abbrev pub push_field : Bytes → Bytes → EventEntry → EventEntry
push_field name v entry = record entry { fields = entry.fields ++ (some name, v) ∷ [] }
