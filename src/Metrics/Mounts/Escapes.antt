-- ===== src/Metrics/Mounts/Escapes.antt =====
-- src/metrics/linux/disk.rs: the escapes of /proc/mounts.
use witness.Prelude.{
  ℕ, ◌≡◌, refl, sym, ap, ◌∙◌, inl, inr, true, false, [], ◌∷◌, ◌++◌, ◌==◌, if◌then◌else◌, ==_iff,
  Bool-cases, any,
}
use witness.Prelude.Str.{Bytes}
use witness.Utf8.{from_utf8_lossy, is_utf8}
use witness.Utf8.Laws.{from_utf8_lossy_valid}
use witness.Metrics.Mounts.{unescape_mount_field, unescape_bytes}

abbrev escape_byte : ℕ → Bytes
escape_byte c =
    if c == b' '
    then b'\\' ∷ b'0' ∷ b'4' ∷ b'0' ∷ []
    else if c == b'\t'
    then b'\\' ∷ b'0' ∷ b'1' ∷ b'1' ∷ []
    else if c == b'\n'
    then b'\\' ∷ b'0' ∷ b'1' ∷ b'2' ∷ []
    else if c == b'\\'
    then b'\\' ∷ b'1' ∷ b'3' ∷ b'4' ∷ []
    else c ∷ []

-- What the kernel's `mangle` writes: a space, a tab, a line feed and a backslash by their octal codes.
unfoldable pub escape : Bytes → Bytes
escape [] = []
escape (c ∷ s) = escape_byte c ++ escape s

unescape_plain :
    (c : ℕ) (s : Bytes) → (c == b'\\') ≡ false → unescape_bytes (c ∷ s) ≡ c ∷ unescape_bytes s
unfolding unescape_bytes
unescape_plain a [] h = refl
unescape_plain a (b ∷ []) h = refl
unescape_plain a (b ∷ c ∷ []) h = refl
unescape_plain a (b ∷ c ∷ d ∷ s) h = rw (h, unescape_bytes)

unescape_code :
    (c : ℕ) {b : ℕ} (s : Bytes) → (c == b) ≡ true → b ∷ unescape_bytes s ≡ c ∷ unescape_bytes s
unescape_code c {b} s e = ap (λ x. x ∷ unescape_bytes s) (sym ((==_iff c b).0 e))

unescape-escape_byte :
    (c : ℕ) (s : Bytes) → unescape_bytes (escape_byte c ++ s) ≡ c ∷ unescape_bytes s
unfolding unescape_bytes
unescape-escape_byte c s = elim (Bool-cases (c == b' ')) [
  | inl p ↦ rw p (unescape_code c s p)
  | inr p ↦ elim (Bool-cases (c == b'\t')) [
    | inl q ↦ rw (p, q) (unescape_code c s q)
    | inr q ↦ elim (Bool-cases (c == b'\n')) [
      | inl r ↦ rw (p, q, r) (unescape_code c s r)
      | inr r ↦ elim (Bool-cases (c == b'\\')) [
        | inl w ↦ rw (p, q, r, w) (unescape_code c s w)
        | inr w ↦ rw (p, q, r, w) (unescape_plain c s w)
      ]
    ]
  ]
]

unescape-escape : (s : Bytes) → unescape_bytes (escape s) ≡ s
unfolding escape unescape_bytes
unescape-escape [] = refl
unescape-escape (c ∷ s) = unescape-escape_byte c (escape s) ∙ ap (◌∷◌ c) (unescape-escape s)

unescape_free : (s : Bytes) → any (λ c. c == b'\\') s ≡ false → unescape_bytes s ≡ s
unfolding unescape_bytes
unescape_free [] h = refl
unescape_free (c ∷ s) h = elim (Bool-cases (c == b'\\')) [
  | inl e ↦ cc (rw e at h)
  | inr e ↦ unescape_plain c s e ∙ ap (◌∷◌ c) (unescape_free s (rw e at h))
]

-- A device or a mount point as the kernel writes it in /proc/mounts is read back as it was, if it is
-- valid UTF-8.
pub unescape_mount_field-escape :
    (s : Bytes) → is_utf8 s ≡ true → unescape_mount_field (escape s) ≡ s
unfolding unescape_mount_field
unescape_mount_field-escape s h = elim (Bool-cases (any (λ c. c == b'\\') (escape s))) [
  | inl e ↦ rw e (ap from_utf8_lossy (unescape-escape s) ∙ from_utf8_lossy_valid s h)
  | inr e ↦ rw e (sym (unescape_free (escape s) e) ∙ unescape-escape s)
]
