-- ===== src/Core/Webhook/Token.antt =====
-- The comparison in constant time is equality.
use rustify.Prelude.{
  ℕ, zero, suc, ◌*◌, ◌/◌, ◌<◌, true, false, List, [], ◌∷◌, length, ◌==◌, ◌≡◌, ◌↔◌, refl, subst, ap,
  ◌∙◌, arith, inl, inr, Bool-cases, All, ==_iff,
}
use rustify.Core.Webhook.{xor_bits, or_bits, differences, verify_plaintext_token}

abbrev pow2 : ℕ → ℕ
pow2 zero = 1
pow2 (suc n) = 2 * pow2 n

==_self : (n : ℕ) → (n == n) ≡ true
==_self n = ground arith

xor_bits_self : (n a : ℕ) → xor_bits n a a ≡ 0
unfolding xor_bits
xor_bits_self zero a = refl
xor_bits_self (suc n) a = ground (arith, xor_bits_self n (a / 2))

xor_bits_zero : (n a b : ℕ) → a < pow2 n → b < pow2 n → xor_bits n a b ≡ 0 → a ≡ b
unfolding xor_bits
xor_bits_zero zero a b p q e = omega arith
xor_bits_zero (suc n) a b p q e =
    let ih = xor_bits_zero n (a / 2) (b / 2) (omega arith) (omega arith) (omega arith) in
    omega arith

or_bits_zero : (n a b : ℕ) → a < pow2 n → b < pow2 n → or_bits n a b ≡ 0 → (a ≡ 0) × (b ≡ 0)
unfolding or_bits
or_bits_zero zero a b p q e = (omega arith, omega arith)
or_bits_zero (suc n) a b p q e =
    let ih = or_bits_zero n (a / 2) (b / 2) (omega arith) (omega arith) (ground arith) in
    (ground arith, ground arith)

xor_bits_fits : (n a b : ℕ) → xor_bits n a b < pow2 n
unfolding xor_bits
xor_bits_fits zero a b = omega arith
xor_bits_fits (suc n) a b = omega (arith, xor_bits_fits n (a / 2) (b / 2))

or_bits_fits : (n a b : ℕ) → or_bits n a b < pow2 n
unfolding or_bits
or_bits_fits zero a b = omega arith
or_bits_fits (suc n) a b = ground (arith, or_bits_fits n (a / 2) (b / 2))

or_bits_none : (n : ℕ) → or_bits n 0 0 ≡ 0
unfolding or_bits
or_bits_none zero = refl
or_bits_none (suc n) = omega (arith, or_bits_none n)

-- Each element is a byte.
abbrev pub Bytes : List ℕ → Type 0
Bytes = All (λ c. c < 256)

differences_self : (s : List ℕ) → differences 0 s s ≡ 0
unfolding differences
differences_self [] = refl
differences_self (a ∷ s) = rw (differences, xor_bits_self 8 a, or_bits_none 8) (differences_self s)

differences_zero :
    (d : ℕ) (s t : List ℕ)
    → d < 256
    → Bytes s
    → Bytes t
    → length s ≡ length t
    → differences d s t ≡ 0
    → (d ≡ 0) × (s ≡ t)
unfolding differences
differences_zero d [] [] f p q l e = (e, refl)
differences_zero d [] (b ∷ t) f p q l e = absurd (omega arith)
differences_zero d (a ∷ s) [] f p q l e = absurd (omega arith)
differences_zero d (a ∷ s) (b ∷ t) f p q l e =
    let (z, w) =
      differences_zero (or_bits 8 d (xor_bits 8 a b)) s t (or_bits_fits 8 d (xor_bits 8 a b)) p.1
        q.1 (omega arith) e in
    let (x, y) = or_bits_zero 8 d (xor_bits 8 a b) f (xor_bits_fits 8 a b) z in
    (x, ap (λ c. c ∷ s) (xor_bits_zero 8 a b p.0 q.0 y) ∙ ap (λ u. b ∷ u) w)

accepts : (s : List ℕ) → verify_plaintext_token s s ≡ true
unfolding verify_plaintext_token
accepts s = rw (verify_plaintext_token, ==_self (length s), differences_self s) refl

refused : (s t : List ℕ) → (length s == length t) ≡ false → verify_plaintext_token s t ≡ true → ⊥
unfolding verify_plaintext_token
refused s t e h = ground (arith, e, h)

-- For bytes, the token is accepted exactly if it is the secret.
pub verify_plaintext_token_iff :
    (secret provided : List ℕ)
    → Bytes secret
    → Bytes provided
    → (verify_plaintext_token secret provided ≡ true) ↔ (secret ≡ provided)
unfolding verify_plaintext_token
verify_plaintext_token_iff secret provided p q = (
  λ h. elim (Bool-cases (length secret == length provided)) [
    | inl e ↦
        (differences_zero 0 secret provided (omega arith) p q
          ((==_iff (length secret) (length provided)).0 e) (ground (arith, e, h))).1
    | inr e ↦ absurd (refused secret provided e h)
  ],
  λ e. subst (λ t. verify_plaintext_token secret t ≡ true) e (accepts secret),
)
