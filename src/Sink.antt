-- ===== src/Sink.antt =====
-- src/sink.rs: the log half of the sink.
pub mod Labels
pub mod Tags
pub mod Metrics
use witness.Prelude.{
  ℕ, ◌+◌, ◌%◌, ◌≡◌, refl, Bool, true, Option, none, List, [], ◌∷◌, ◌++◌, if◌then◌else◌,
}
use witness.Prelude.Str.{Bytes}
use witness.Level.{LogLevel}

-- The arguments of one `log` call.
pub record Entry (Value : Type 0) : Type 0 where
  pub level : LogLevel
  pub message : Bytes
  pub component : Option Bytes
  pub service : Option Bytes
  pub payload : Option Value

-- `SinkInner` without the test doubles. The client of the SDK is what it will answer to each call
-- (`false`: its channel is full), and the number of calls made; dry-run counts what it prints.
pub data SinkInner : Type 0 where
  live : (ℕ → Bool) → ℕ → SinkInner
  dry_run : ℕ → SinkInner
  discard : SinkInner

-- `taken` are the entries that were accepted, in order: by the SDK's channel, by the terminal, or to
-- be discarded.
-- A client that has room for every entry.
abbrev pub Accepts : SinkInner → Type 0
Accepts (live answer calls) = (n : ℕ) → answer n ≡ true
Accepts (dry_run n) = Unit
Accepts discard = Unit

pub record Sink (Value : Type 0) : Type 0 where
  pub inner : SinkInner
  pub tags : List (Bytes × Bytes)
  pub taken : List (Entry Value)

abbrev pub usize : ℕ
usize = 18446744073709551616

module _ {Value : Type 0} where
  abbrev add_taken : Bool → Entry Value → List (Entry Value) → List (Entry Value)
  add_taken ok e es = if ok then es ++ e ∷ [] else es

  unfoldable pub try_log_to : SinkInner → Sink Value → Entry Value → Bool × Sink Value
  try_log_to (live answer calls) s e = (
    answer calls,
    record s { inner = live answer (calls + 1); taken = add_taken (answer calls) e s.taken },
  )
  try_log_to (dry_run n) s e =
      (true, record s { inner = dry_run ((n + 1) % usize); taken = s.taken ++ e ∷ [] })
  try_log_to discard s e = (true, record s { inner = discard; taken = s.taken ++ e ∷ [] })

  unfoldable pub try_log_with_service : Sink Value → Entry Value → Bool × Sink Value
  unfolding try_log_to
  try_log_with_service s e = try_log_to s.inner s e

  -- Fire and forget: the answer is not looked at.
  unfoldable pub log_with_service : Sink Value → Entry Value → Sink Value
  unfolding try_log_with_service
  log_with_service s e = (try_log_with_service s e).1

  -- `log` gives no service.
  unfoldable pub log : Sink Value → LogLevel → Bytes → Sink Value
  unfolding log_with_service
  log s level message = log_with_service s (record {
    level = level;
    message = message;
    component = none;
    service = none;
    payload = none;
  })

  unfoldable try_log :
      Sink Value → LogLevel → Bytes → Option Bytes → Option Value → Bool × Sink Value
  unfolding try_log_with_service
  try_log s level message component payload = try_log_with_service s (record {
    level = level;
    message = message;
    component = component;
    service = none;
    payload = payload;
  })

  -- An entry is taken, behind the others, exactly when the call says so.
  pub try_log_lem :
      (s : Sink Value) (e : Entry Value)
      → (try_log_with_service s e).1.taken
        ≡ (if (try_log_with_service s e).0 then s.taken ++ e ∷ [] else s.taken)
  unfolding try_log_with_service
  try_log_lem s e = try_log_to_lem s.inner s e
    where
      try_log_to_lem :
          (i : SinkInner) (s : Sink Value) (e : Entry Value)
          → (try_log_to i s e).1.taken
            ≡ (if (try_log_to i s e).0 then s.taken ++ e ∷ [] else s.taken)
      try_log_to_lem (live answer calls) s e = refl
      try_log_to_lem (dry_run n) s e = refl
      try_log_to_lem discard s e = refl
