-- ===== src/Tests/Events.antt =====
-- Concrete inputs for src/logs/eventlog_parse.rs.
use witness.Prelude.{◌≡◌, Option, none, some, List, [], ◌∷◌}
use witness.Prelude.Str.{Bytes, codes}
use witness.Eventlog.Entry.{default}
use witness.Eventlog.Xml.{parse_event_xml}
use witness.Eventlog.Values.{Piece, literal, reference, document, named, parse_event_xml-document}

-- One named value, cut at a reference, and one without a name.
abbrev items_example : List (Option Bytes × List Piece)
items_example =
    (some (codes "User"), literal (codes " a") ∷ reference (codes "&") ∷ literal (codes "b ") ∷ [])
    ∷ (none, literal (codes "7") ∷ [])
    ∷ []

parse_event_xml-document_example :
    parse_event_xml (document items_example)
    ≡ some (record default { fields = named 0 items_example })
parse_event_xml-document_example = parse_event_xml-document items_example
