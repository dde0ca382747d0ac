-- ===== src/Eventlog/Xml.antt =====
-- src/logs/eventlog_parse.rs: `parse_event_xml`. quick-xml's answers to `read_event` are a list, and an
-- element is its name with the answers of `try_get_attribute`, normalised.
use witness.Prelude.{
  ℕ, ◌+◌, ◌||◌, Option, none, some, List, [], ◌∷◌, ◌++◌, if◌then◌else◌, drop, is_empty,
}
use witness.Prelude.Str.{Bytes, codes, eqb}
use witness.Utf8.{from_utf8_lossy}
use witness.Std.Print.{print}
use witness.Std.Trim.{trim}
use witness.Crates.{position}
use witness.Eventlog.Entry.{
  EventEntry, default, Element, attr, open_system, close_system, push_field,
}

-- `text` and `general_ref` carry what their decoding and resolution give, if they do not fail.
pub data Xml : Type 0 where
  start empty : Element → Xml
  text general_ref : Option Bytes → Xml
  cdata : Bytes → Xml
  end_tag : Bytes → Xml
  other : Xml
  invalid : Xml

pub data Section : Type 0 where
  outside system event_data user_data : Section

pub record Parser : Type 0 where
  pub entry : EventEntry
  pub section : Section
  pub cur_name : Bytes
  pub data_attr_name : Option (Option Bytes)
  pub unnamed_count : ℕ
  pub chars : Bytes

abbrev pub begin : Parser
begin = record {
  entry = default;
  section = outside;
  cur_name = [];
  data_attr_name = none;
  unnamed_count = 0;
  chars = [];
}

unfoldable pub local_name : Bytes → Bytes
unfolding position
local_name name = elim (position b':' name) [ none ↦ name | some i ↦ drop (i + 1) name ]

unfoldable pub enter_section : Bytes → Section → Section
unfolding eqb
enter_section name s =
    if eqb name (codes "System")
    then system
    else if eqb name (codes "EventData")
    then event_data
    else if eqb name (codes "UserData")
    then user_data
    else s

abbrev with_entry : Option EventEntry → Parser → Option Parser
with_entry none p = none
with_entry (some entry) p = some (record p { entry = entry })

abbrev with_name : Option (Option Bytes) → Parser → Option Parser
with_name none p = none
with_name (some n) p = some (record p { data_attr_name = some n })

unfoldable pub on_open : Section → Element → Bytes → Parser → Option Parser
unfolding open_system eqb
on_open system e name p = with_entry (open_system e name p.entry) p
on_open event_data e name p =
    if eqb name (codes "Data") then with_name (attr (e.attribute (codes "Name"))) p else some p
on_open outside e name p = some p
on_open user_data e name p = some p

abbrev pub positional : ℕ → Bytes
positional n = codes "param" ++ print n

abbrev pub flatten : Option (Option Bytes) → Option Bytes
flatten none = none
flatten (some o) = o

-- A `Data` element closes: it has its name, or the next positional one.
unfoldable pub close_data : Option Bytes → Bytes → Parser → Parser
unfolding print
close_data (some name) trimmed p = record p {
  entry = push_field name trimmed p.entry;
  data_attr_name = none;
}
close_data none trimmed p = record p {
  entry = push_field (positional (p.unnamed_count + 1)) trimmed p.entry;
  data_attr_name = none;
  unnamed_count = p.unnamed_count + 1;
}

unfoldable pub on_close : Section → Bytes → Bytes → Parser → Parser
unfolding close_system close_data eqb from_utf8_lossy trim
on_close outside name chars p = p
on_close system name chars p = record p { entry = close_system name (trim chars) p.entry }
on_close event_data name chars p =
    if eqb name (codes "Data") then close_data (flatten p.data_attr_name) (trim chars) p else p
on_close user_data name chars p =
    if eqb name (codes "UserData") || is_empty (trim chars)
    then p
    else record p { entry = push_field (from_utf8_lossy name) (trim chars) p.entry }

unfoldable pub opened : Element → Parser → Option Parser
unfolding local_name enter_section on_open
opened e p =
    let name = local_name e.name in
    let s = enter_section name p.section in on_open s e name (record p { section = s })

abbrev add_chars : Option Bytes → Parser → Parser
add_chars none p = p
add_chars (some t) p = record p { chars = p.chars ++ t }

abbrev closed_empty : Element → Option Parser → Option Parser
closed_empty e none = none
closed_empty e (some p) = some (record (on_close p.section (local_name e.name) [] p) { chars = [] })

abbrev started : Element → Option Parser → Option Parser
started e none = none
started e (some p) = some (record p { cur_name = local_name e.name; chars = [] })

-- One turn of the loop; `none` is `ParseError`.
unfoldable pub on_event : Xml → Parser → Option Parser
unfolding opened on_close local_name eqb from_utf8_lossy
on_event (start e) p = started e (opened e p)
on_event (empty e) p = closed_empty e (opened e p)
on_event (text t) p = some (add_chars t p)
on_event (general_ref t) p = some (add_chars t p)
on_event (cdata t) p = some (record p { chars = p.chars ++ from_utf8_lossy t })
on_event (end_tag name) p =
    let q =
      if eqb (local_name name) p.cur_name
      then on_close p.section (local_name name) p.chars p
      else p in
    some (record q { chars = []; cur_name = [] })
on_event other p = some p
on_event invalid p = none

-- The end of the list is `Event::Eof`.
unfoldable pub parse_events : List Xml → Parser → Option Parser
unfolding on_event
parse_events [] p = some p
parse_events (x ∷ xs) p = elim (on_event x p) [ none ↦ none | some q ↦ parse_events xs q ]

abbrev pub entry_of : Option Parser → Option EventEntry
entry_of none = none
entry_of (some p) = some p.entry

unfoldable pub parse_event_xml : List Xml → Option EventEntry
unfolding parse_events
parse_event_xml xs = entry_of (parse_events xs begin)
