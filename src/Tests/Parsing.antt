-- ===== src/Tests/Parsing.antt =====
-- Concrete inputs for src/logs/structured.rs, src/logs/syslog.rs and src/logs/eventlog_filter.rs.
use witness.Prelude.{◌≡◌, refl, ◌↔◌, true, none, some, List, [], ◌∷◌, ◌++◌, length, take, all, All}
use witness.Prelude.Str.{Bytes, codes, starts_with, is_ascii_hexdigit}
use witness.Std.Scan.{find}
use witness.Structured.Logfmt.{logfmt_field_start, value, parse_logfmt_fields, is_logfmt_key_byte}
use witness.Structured.Logfmt.RoundTrip.{IsKey, render, parse_logfmt_fields-render}
use witness.Tests.{crates_example}
use witness.Crates.{positions}
use witness.Structured.Logfmt.Start.{FieldAt, logfmt_field_start_lem}
use witness.Structured.Severity.{scan_line_level}
use witness.Structured.Severity.Tokens.{first_level, tokens, scan_line_level_lem}
use witness.Syslog as Syslog
use witness.Syslog.{is_valid_program}
use witness.Syslog.RoundTrip.{tag_of, parse_lem}
use witness.Eventlog as Eventlog
use witness.Eventlog.{ApiKey, valid, validate_api_key, no_filter, EventIdFilter}
use witness.Eventlog.Merge.{joined, parse-append, ships, parse_comm}
use witness.Eventlog.Ranges.{IsOrdered, parse-IsOrdered, validate_api_key_iff}

abbrev fields_example : List (Bytes × Bytes)
fields_example = (codes "user", codes "a b\"c") ∷ (codes "status", codes "200") ∷ []

keys_example : All IsKey fields_example
unfolding is_logfmt_key_byte
keys_example = (((λ e. cc), refl), (((λ e. cc), refl), tt))

parse_logfmt_fields-render_example : parse_logfmt_fields (render fields_example) ≡ fields_example
parse_logfmt_fields-render_example = parse_logfmt_fields-render fields_example keys_example

is_program : is_valid_program (codes "sshd") ≡ true
unfolding is_valid_program
is_program = refl

no_separator :
    find
      (b':' ∷ b' ' ∷ [])
      (codes "Apr 12 23:50:00 host" ++ b' ' ∷ tag_of (codes "sshd") (some (codes "1234")))
    ≡ none
unfolding find starts_with
no_separator = refl

parse_lem_example :
    Syslog.parse (
      (codes "Apr 12 23:50:00 host" ++ b' ' ∷ tag_of (codes "sshd") (some (codes "1234")))
      ++ b':' ∷ b' ' ∷ codes "Connection reset")
    ≡ some (record { program = codes "sshd"; body = codes "Connection reset" })
parse_lem_example =
    parse_lem (codes "Apr 12 23:50:00 host") (codes "sshd") (some (codes "1234"))
      (codes "Connection reset") is_program refl no_separator

parse-append_example :
    Eventlog.parse (codes "4624" ++ b',' ∷ codes "-4700-4800")
    ≡ joined (Eventlog.parse (codes "4624")) (Eventlog.parse (codes "-4700-4800"))
parse-append_example = parse-append (codes "4624") (codes "-4700-4800")

parse_comm_example :
    ships 4700 (Eventlog.parse (codes "4624" ++ b',' ∷ codes "-4700-4800"))
    ≡ ships 4700 (Eventlog.parse (codes "-4700-4800" ++ b',' ∷ codes "4624"))
parse_comm_example = parse_comm (codes "4624") (codes "-4700-4800") 4700

abbrev range_filter : EventIdFilter
range_filter = record { includes = (4624, 4624) ∷ []; excludes = (4700, 4800) ∷ [] }

is_parsed : Eventlog.parse (codes "4624, -4700-4800") ≡ some range_filter
unfolding Eventlog.parse
is_parsed = refl

parse-IsOrdered_example : IsOrdered range_filter
parse-IsOrdered_example = parse-IsOrdered (codes "4624, -4700-4800") range_filter is_parsed

key_accepted : (validate_api_key (codes "00112233445566778899aabbccddeeff") ≡ valid) ↔ (
    (length (codes "00112233445566778899aabbccddeeff") ≡ 32)
    × (all is_ascii_hexdigit (codes "00112233445566778899aabbccddeeff") ≡ true))
key_accepted = validate_api_key_iff (codes "00112233445566778899aabbccddeeff")

starts_at : logfmt_field_start crates_example (codes "login ok user=bob") ≡ some 8
unfolding logfmt_field_start positions
starts_at = refl

logfmt_field_start_lem_example :
    (f : FieldAt (codes "login ok user=bob") 8) × (more : List (Bytes × Bytes))
    × (parse_logfmt_fields (codes "user=bob") ≡ (f.key, (value f.rest).0) ∷ more)
logfmt_field_start_lem_example =
    logfmt_field_start_lem crates_example (codes "login ok user=bob") 8 starts_at

scan_line_level_lem_example :
    scan_line_level (codes "12:00 [error] disk")
    ≡ first_level (tokens (take 96 (codes "12:00 [error] disk")))
scan_line_level_lem_example = scan_line_level_lem (codes "12:00 [error] disk")
