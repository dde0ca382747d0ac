-- ===== src/Structured/Classify.antt =====
-- src/logs/structured.rs: `split_message`, `take_level` and `classify_line`.
use witness.Prelude.{
  ◌+◌, Bool, true, false, Option, none, some, List, [], ◌∷◌, map, if◌then◌else◌, option_or, take,
  drop, any, is_empty,
}
use witness.Prelude.Str.{Bytes, codes, eq_ignore_ascii_case, starts_with}
use witness.Std.Trim.{trim_start}
use witness.Json.{object_unless_empty}
use witness.Crates.{Crates, text, number, object}
use witness.Level.{LogLevel, info}
use witness.Syslog.{parse}
use witness.Structured.Severity.{numeric_level, level_from_str, scan_line_level}
use witness.Structured.Logfmt.{logfmt_field_start, parse_logfmt_fields}

pub record FileParseOpts : Type 0 where
  pub syslog : Bool
  pub structured : Bool
  pub levels : Bool

pub record Classified (Value : Type 0) : Type 0 where
  pub level : LogLevel
  pub body : Bytes
  pub service : Option Bytes
  pub payload : Option Value

abbrev pub level_keys : List Bytes
level_keys = codes "level" ∷ codes "severity" ∷ codes "lvl" ∷ []

abbrev pub is_level_key : Bytes → Bool
is_level_key k = any (eq_ignore_ascii_case k) level_keys

-- The `|` of two optional values.
abbrev or_else {ℓ} : {A : Type ℓ} → Option A → Option A → Option A
or_else (some a) o = some a
or_else none o = o

module _ (crates : Crates) where
  open crates use {Value, Map, view, text_value, object_value, entries, collect}

  -- The text of a JSON value: of a string itself, of another its JSON.
  unfoldable pub value_text : Value → Bytes
  value_text v = elim (view v) [ text s ↦ s | _ ↦ crates.to_string v ]

  -- `obj.remove("msg").or_else(|| obj.remove("message"))`: the value, and the map without it.
  unfoldable pub remove_message : Map → Option Value × Map
  remove_message m = elim (crates.get (codes "msg") m) [
    | some v ↦ (some v, crates.remove (codes "msg") m)
    | none ↦ elim (crates.get (codes "message") m) [
      | some v ↦ (some v, crates.remove (codes "message") m)
      | none ↦ (none, m)
    ]
  ]

  unfoldable pub split_object : Bytes → Map → Bytes × Option Value
  unfolding value_text remove_message
  split_object message m =
      let (found, rest) = remove_message m in
      (elim found [ some v ↦ value_text v | none ↦ message ], object_unless_empty crates rest)

  abbrev pub fields_value : List (Bytes × Bytes) → Option Value
  fields_value [] = none
  fields_value (f ∷ fs) =
      some (object_value (collect (map (λ kv. (kv.0, text_value kv.1)) (f ∷ fs))))

  unfoldable pub split_logfmt : Bytes → Bytes × Option Value
  unfolding logfmt_field_start parse_logfmt_fields
  split_logfmt message = elim (logfmt_field_start crates message) [
    | some at ↦ (take at message, fields_value (parse_logfmt_fields (drop (at + 1) message)))
    | none ↦ (message, none)
  ]

  -- The object that the message is, if it begins with a brace and is the JSON of an object.
  unfoldable pub json_object : Bytes → Option Map
  unfolding trim_start starts_with
  json_object message =
      if starts_with (codes "{") (trim_start message)
      then elim (crates.from_str (trim_start message)) [
        | some v ↦ elim (view v) [ object m ↦ some m | _ ↦ none ]
        | none ↦ none
      ]
      else none

  unfoldable pub split_message : Bytes → Bytes × Option Value
  unfolding json_object split_object split_logfmt
  split_message message = elim (json_object message) [
    | some m ↦ split_object message m
    | none ↦ split_logfmt message
  ]

  unfoldable pub level_from_value : Value → Option LogLevel
  unfolding level_from_str numeric_level
  level_from_value v = elim (view v) [
    | text s ↦ level_from_str s
    | number n ↦ elim n [ some k ↦ numeric_level k | none ↦ none ]
    | _ ↦ none
  ]

  -- The first key of the map that is one of the level's.
  unfoldable pub find_level_key : List (Bytes × Value) → Option Bytes
  unfolding eq_ignore_ascii_case
  find_level_key [] = none
  find_level_key ((k, v) ∷ rest) = if is_level_key k then some k else find_level_key rest

  unfoldable pub take_level : Map → Option (LogLevel × Map)
  unfolding find_level_key level_from_value
  take_level m = elim (find_level_key (entries m)) [
    | none ↦ none
    | some key ↦ elim (crates.get key m) [
      | none ↦ none
      | some v ↦ elim (level_from_value v) [ none ↦ none | some l ↦ some (l, crates.remove key m) ]
    ]
  ]

  -- Step 1: the syslog envelope.
  unfoldable pub envelope : Bool → Bytes → Bytes × Option Bytes
  unfolding parse
  envelope false line = (line, none)
  envelope true line = elim (parse line) [ some p ↦ (p.body, some p.program) | none ↦ (line, none) ]

  -- Step 2: the level that the fields hold, and the fields without it.
  unfoldable pub consume_level : Bool → Option Value → Option LogLevel × Option Value
  unfolding take_level
  consume_level false fields = (none, fields)
  consume_level true none = (none, none)
  consume_level true (some v) = elim (view v) [
    | object m ↦ elim (take_level m) [
      | some (l, m') ↦ (some l, some (object_value m'))
      | none ↦ (none, some v)
    ]
    | _ ↦ (none, some v)
  ]

  abbrev pub drop_empty : Option Value → Option Value
  drop_empty none = none
  drop_empty (some v) = elim (view v) [
    | object m ↦ if is_empty (entries m) then none else some v
    | _ ↦ some v
  ]

  -- The body, the level if one was found, and the payload.
  unfoldable pub extract : FileParseOpts → Bytes → Bytes × Option LogLevel × Option Value
  unfolding split_message consume_level
  extract opts body =
      if opts.structured
      then (let (b, fields) = split_message body in
          let (level, rest) = consume_level opts.levels fields in (b, level, drop_empty rest))
      else (body, none, none)

  -- Step 3: the scan of the body, where the fields held no level.
  unfoldable pub resolve_level : Bool → Option LogLevel → Bytes → LogLevel
  unfolding scan_line_level
  resolve_level levels (some l) body = l
  resolve_level true none body = option_or (scan_line_level body) info
  resolve_level false none body = info

  unfoldable pub classify_line : FileParseOpts → Bytes → Classified Value
  unfolding envelope extract resolve_level
  classify_line opts line =
      let (source, service) = envelope opts.syslog line in
      let (body, found, payload) = extract opts source in
      record {
        level = resolve_level opts.levels found body;
        body = body;
        service = service;
        payload = payload;
      }
