-- ===== src/Core/Redact.antt =====
-- crates/rustify-core/src/redact.rs: the secrets in a deployment's log.
mod Tests
use rustify.Prelude.{
  ℕ, Bool, true, false, not, ◌&&◌, ◌||◌, List, [], ◌∷◌, Str, str_eq, codes, ◌==◌, ltb,
  if◌then◌else◌, filter,
}
use rustify.Prelude.Replace.{replace, byte_length}
use rustify.Prelude.Sort.{sort_by}

abbrev pub redacted : Str
redacted = codes "[REDACTED]"

-- The order of texts, which is that of their bytes in UTF-8.
abbrev pub text_before : Str → Str → Bool
text_before s [] = false
text_before [] (c ∷ t) = true
text_before (a ∷ s) (b ∷ t) = ltb a b || ((a == b) && text_before s t)

-- Longer in bytes first, then by the order of texts.
abbrev pub longer_first : Str → Str → Bool
longer_first a b =
    ltb (byte_length b) (byte_length a) || ((byte_length a == byte_length b) && text_before a b)

-- One of each run of equal texts.
abbrev pub dedup : List Str → List Str
dedup [] = []
dedup (s ∷ []) = s ∷ []
dedup (s ∷ t ∷ ss) = let rest = dedup (t ∷ ss) in if str_eq s t then rest else s ∷ rest

unfoldable pub redact_all : List Str → Str → Str
unfolding replace
redact_all [] out = out
redact_all (secret ∷ secrets) out = redact_all secrets (replace secret redacted out)

unfoldable pub redact : Str → List Str → Str
unfolding redact_all sort_by str_eq byte_length
redact content secrets =
    redact_all (dedup (sort_by longer_first (filter (λ s. not (str_eq s [])) secrets))) content
