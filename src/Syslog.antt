-- ===== src/Syslog.antt =====
-- src/logs/syslog.rs: the program and the body of a syslog line.
pub mod RoundTrip
use witness.Prelude.{
  ℕ, ◌+◌, Bool, false, ◌&&◌, ◌||◌, Option, none, some, [], ◌∷◌, ◌==◌, if◌then◌else◌, take, drop,
  all,
}
use witness.Prelude.Str.{Bytes, is_ascii_alphabetic, is_ascii_alphanumeric}
use witness.Std.Scan.{find, rfind}
use witness.Crates.{position}

pub record SyslogParsed : Type 0 where
  pub program : Bytes
  pub body : Bytes

unfoldable pub is_program_byte : ℕ → Bool
is_program_byte b = is_ascii_alphanumeric b || b == b'-' || b == b'_' || b == b'.'

unfoldable pub is_valid_program : Bytes → Bool
unfolding is_program_byte
is_valid_program [] = false
is_valid_program (b ∷ bs) = is_ascii_alphabetic b && all is_program_byte bs

-- `"sshd[1234]"` to `"sshd"`.
unfoldable pub strip_pid : Bytes → Bytes
unfolding position
strip_pid tag = elim (position b'[' tag) [ some bracket ↦ take bracket tag | none ↦ tag ]

abbrev pub separator : Bytes
separator = b':' ∷ b' ' ∷ []

abbrev pub parsed : Bytes → Bytes → Option SyslogParsed
parsed program body =
    if is_valid_program program then some (record { program = program; body = body }) else none

unfoldable pub parse : Bytes → Option SyslogParsed
unfolding is_valid_program strip_pid find rfind
parse line = elim (find separator line) [
  | none ↦ none
  | some sep ↦ elim (rfind b' ' (take sep line)) [
    | none ↦ none
    | some space ↦ parsed (strip_pid (drop (space + 1) (take sep line))) (drop (sep + 2) line)
  ]
]
