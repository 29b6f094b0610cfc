-- ===== src/Core/Redact/Tests.antt =====
-- The tests of redact.rs.
use rustify.Prelude.{[], ◌∷◌, codes, ◌≡◌, refl}
use rustify.Core.Redact.{redact}

overlapping :
    redact (codes "key=secretkey and word=secret") (codes "secret" ∷ codes "secretkey" ∷ [])
    ≡ codes "key=[REDACTED] and word=[REDACTED]"
unfolding redact
overlapping = refl

left_to_right : redact (codes "aaa") (codes "aa" ∷ codes "aa" ∷ []) ≡ codes "[REDACTED]a"
unfolding redact
left_to_right = refl

empty_secret : redact (codes "pass=x") ([] ∷ codes "x" ∷ []) ≡ codes "pass=[REDACTED]"
unfolding redact
empty_secret = refl
