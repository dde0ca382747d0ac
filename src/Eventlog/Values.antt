-- ===== src/Eventlog/Values.antt =====
-- src/logs/eventlog_parse.rs: the values of `EventData`, from the document to the event.
use witness.Prelude.{
  ℕ, ◌+◌, ◌≡◌, refl, sym, ap, ◌∙◌, inl, inr, Option, none, some, List, [], ◌∷◌, ◌++◌, map,
  append-nil, append_assoc, if◌then◌else◌, Bool-cases,
}
use witness.Prelude.Str.{Bytes, codes, eqb}
use witness.Std.Trim.{trim}
use witness.Eventlog.Entry.{Element, default, absent, value, Attribute}
use witness.Eventlog.Xml.{
  Xml, start, text, general_ref, end_tag, event_data, Parser, begin, on_event, parse_events,
  parse_event_xml, entry_of, close_data, positional, opened, on_open, on_close, enter_section,
  local_name,
}

-- A stretch of a value, as quick-xml cuts it: text, or a reference that was resolved.
pub data Piece : Type 0 where
  literal reference : Bytes → Piece

abbrev pub piece_xml : Piece → Xml
piece_xml (literal s) = text (some s)
piece_xml (reference s) = general_ref (some s)

abbrev pub pieces_text : List Piece → Bytes
pieces_text [] = []
pieces_text (literal s ∷ ps) = s ++ pieces_text ps
pieces_text (reference s ∷ ps) = s ++ pieces_text ps

abbrev name_attribute : Option Bytes → Attribute
name_attribute none = absent
name_attribute (some n) = value n

abbrev pub plain_element : Bytes → Element
plain_element name = record { name = name; attribute = λ k. absent }

abbrev pub data_element : Option Bytes → Element
data_element n = record {
  name = codes "Data";
  attribute = λ k. if eqb k (codes "Name") then name_attribute n else absent;
}

-- `<Data Name="n">pieces</Data>` for each value, within an `EventData`.
abbrev pub data_xml : List (Option Bytes × List Piece) → List Xml → List Xml
data_xml [] rest = rest
data_xml ((n, ps) ∷ items) rest =
    start (data_element n) ∷ (map piece_xml ps ++ end_tag (codes "Data") ∷ data_xml items rest)

abbrev pub document : List (Option Bytes × List Piece) → List Xml
document items =
    start (plain_element (codes "Event"))
    ∷ start (plain_element (codes "EventData"))
    ∷ data_xml items (end_tag (codes "EventData") ∷ end_tag (codes "Event") ∷ [])

-- The values with their names: those without one are numbered among themselves, from 1.
abbrev pub named : ℕ → List (Option Bytes × List Piece) → List (Option Bytes × Bytes)
named n [] = []
named n ((some name, ps) ∷ items) = (some name, trim (pieces_text ps)) ∷ named n items
named n ((none, ps) ∷ items) =
    (some (positional (n + 1)), trim (pieces_text ps)) ∷ named (n + 1) items

pieces_lem :
    (ps : List Piece) (rest : List Xml) (p : Parser)
    → parse_events (map piece_xml ps ++ rest) p
      ≡ parse_events rest (record p { chars = p.chars ++ pieces_text ps })
unfolding parse_events on_event
pieces_lem [] rest p =
    ap (λ s. parse_events rest (record p { chars = s })) (sym (append-nil p.chars))
pieces_lem (literal s ∷ ps) rest p =
    pieces_lem ps rest (record p { chars = p.chars ++ s })
    ∙ ap (λ t. parse_events rest (record p { chars = t })) (append_assoc p.chars s (pieces_text ps))
pieces_lem (reference s ∷ ps) rest p =
    pieces_lem ps rest (record p { chars = p.chars ++ s })
    ∙ ap (λ t. parse_events rest (record p { chars = t })) (append_assoc p.chars s (pieces_text ps))

-- The parser behind one value.
abbrev behind_value : Option Bytes → Bytes → Parser → Parser
behind_value n v p = record (close_data n v p) { chars = []; cur_name = [] }

abbrev inside : Parser → Parser
inside p = record p { section = event_data }

-- A `Data` element has opened.
abbrev in_value : Option Bytes → Parser → Parser
in_value n p = record (inside p) { data_attr_name = some n; cur_name = codes "Data"; chars = [] }

open_value :
    (n : Option Bytes) (p : Parser)
    → on_event (start (data_element n)) (inside p) ≡ some (in_value n p)
unfolding on_event opened on_open enter_section local_name eqb
open_value none p = refl
open_value (some name) p = refl

close_value :
    (n : Option Bytes) (v : Bytes) (p : Parser)
    → on_event (end_tag (codes "Data")) (record (in_value n p) { chars = v })
      ≡ some (inside (behind_value n (trim v) p))
unfolding on_event on_close close_data local_name eqb
close_value none v p = refl
close_value (some name) v p = refl

parse_step :
    (x : Xml) (xs : List Xml) (p q : Parser)
    → on_event x p ≡ some q
    → parse_events (x ∷ xs) p ≡ parse_events xs q
unfolding parse_events
parse_step x xs p q e = rw (e, parse_events) refl

value_lem :
    (n : Option Bytes) (ps : List Piece) (rest : List Xml) (p : Parser)
    → parse_events
        (start (data_element n) ∷ (map piece_xml ps ++ end_tag (codes "Data") ∷ rest))
        (inside p)
      ≡ parse_events rest (inside (behind_value n (trim (pieces_text ps)) p))
value_lem n ps rest p =
    parse_step (start (data_element n)) (map piece_xml ps ++ end_tag (codes "Data") ∷ rest)
      (inside p) (in_value n p) (open_value n p)
    ∙ pieces_lem ps (end_tag (codes "Data") ∷ rest) (in_value n p)
    ∙ parse_step (end_tag (codes "Data")) rest (record (in_value n p) { chars = pieces_text ps })
        (inside (behind_value n (trim (pieces_text ps)) p)) (close_value n (pieces_text ps) p)

abbrev behind_values : List (Option Bytes × List Piece) → Parser → Parser
behind_values [] p = p
behind_values ((n, ps) ∷ items) p = behind_values items (behind_value n (trim (pieces_text ps)) p)

values_lem :
    (items : List (Option Bytes × List Piece)) (rest : List Xml) (p : Parser)
    → parse_events (data_xml items rest) (inside p)
      ≡ parse_events rest (inside (behind_values items p))
values_lem [] rest p = refl
values_lem ((n, ps) ∷ items) rest p =
    value_lem n ps (data_xml items rest) p
    ∙ values_lem items rest (behind_value n (trim (pieces_text ps)) p)

fields_behind :
    (items : List (Option Bytes × List Piece)) (p : Parser)
    → (behind_values items p).entry
      ≡ record (p.entry) { fields = p.entry.fields ++ named p.unnamed_count items }
unfolding close_data
fields_behind [] p = ap (λ f. record (p.entry) { fields = f }) (sym (append-nil p.entry.fields))
fields_behind ((some name, ps) ∷ items) p =
    fields_behind items (behind_value (some name) (trim (pieces_text ps)) p)
    ∙ ap (λ f. record (p.entry) { fields = f })
        (append_assoc p.entry.fields ((some name, trim (pieces_text ps)) ∷ [])
          (named p.unnamed_count items))
fields_behind ((none, ps) ∷ items) p =
    fields_behind items (behind_value none (trim (pieces_text ps)) p)
    ∙ ap (λ f. record (p.entry) { fields = f })
        (append_assoc p.entry.fields
          ((some (positional (p.unnamed_count + 1)), trim (pieces_text ps)) ∷ [])
          (named (p.unnamed_count + 1) items))

-- The two elements that stand round the values bring nothing.
end_lem :
    (p : Parser)
    → entry_of
        (parse_events (end_tag (codes "EventData") ∷ end_tag (codes "Event") ∷ []) (inside p))
      ≡ some p.entry
unfolding parse_events on_event on_close local_name eqb
end_lem p = elim (Bool-cases (eqb (codes "EventData") p.cur_name)) [
  | inl y ↦ rw y refl
  | inr n ↦ rw n refl
]

abbrev at_values : Parser
at_values = record begin { cur_name = codes "EventData" }

begin_lem :
    (items : List (Option Bytes × List Piece))
    → parse_events (document items) begin
      ≡ parse_events
          (data_xml items (end_tag (codes "EventData") ∷ end_tag (codes "Event") ∷ []))
          (inside at_values)
unfolding parse_events on_event opened on_open enter_section local_name eqb
begin_lem items = refl

-- The values of an event are read as they were written, in order and trimmed, under their names; the
-- unnamed ones are numbered among themselves. A value may be cut into texts and references anywhere.
pub parse_event_xml-document :
    (items : List (Option Bytes × List Piece))
    → parse_event_xml (document items) ≡ some (record default { fields = named 0 items })
unfolding parse_event_xml
parse_event_xml-document items =
    ap entry_of (
      begin_lem items
      ∙ values_lem items (end_tag (codes "EventData") ∷ end_tag (codes "Event") ∷ []) at_values)
    ∙ end_lem (behind_values items at_values)
    ∙ ap some (fields_behind items at_values)
