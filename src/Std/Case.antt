-- ===== src/Std/Case.antt =====
-- `str::to_lowercase`: the tables of Unicode are a parameter, which agrees with ASCII.
use witness.Prelude.{◌≡◌, true, map, all, ltb}
use witness.Prelude.Str.{Bytes, to_ascii_lower}

pub record Case : Type 0 where
  pub to_lowercase : Bytes → Bytes
  pub to_lowercase_ascii :
      (s : Bytes) → all (λ c. ltb c 128) s ≡ true → to_lowercase s ≡ map to_ascii_lower s
