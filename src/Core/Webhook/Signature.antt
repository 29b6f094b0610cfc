-- ===== src/Core/Webhook/Signature.antt =====
-- Which signatures of a body are accepted.
use rustify.Prelude.{
  ℕ, ◌+◌, ◌-◌, ◌*◌, ◌/◌, ◌%◌, ◌≤◌, ◌<◌, ◌⊎◌, inl, inr, true, false, some, List, [], ◌∷◌, Str,
  str_eq_sound, str_eq_self, ◌≡◌, ◌↔◌, refl, ap, sym, ◌∙◌, arith, All, Option-cases, if◌then◌else◌,
  ltb,
}
use rustify.Prelude.Chars.{trim, trim_matches, trim_start_by, trim_end_by, is_whitespace}
use rustify.Core.Webhook.Repository.{
  hex_digit, hex_byte, decode_hex, verify_hmac_sha256, verify_slice,
}

-- A lower-case hexadecimal digit.
abbrev pub IsLowerHex : ℕ → Type 0
IsLowerHex c = ((48 ≤ c) × (c ≤ 57)) ⊎ ((97 ≤ c) × (c ≤ 102))

abbrev digit : ℕ → ℕ
digit n = if ltb n 10 then n + 48 else n + 87

-- The usual hexadecimal text of bytes.
abbrev pub encode_hex : List ℕ → Str
encode_hex [] = []
encode_hex (b ∷ bs) = digit (b / 16) ∷ digit (b % 16) ∷ encode_hex bs

hex_digit-digit : (n : ℕ) → n < 16 → hex_digit (digit n) ≡ some n
unfolding hex_digit
hex_digit-digit n h = ground arith

hex_byte-digit : (b : ℕ) → b < 256 → hex_byte (digit (b / 16)) (digit (b % 16)) ≡ some b
unfolding hex_byte
hex_byte-digit b h =
    rw (hex_digit-digit (b / 16) (omega arith), hex_digit-digit (b % 16) (omega arith))
      (ground arith)

decode_hex-encode : (bs : List ℕ) → All (λ b. b < 256) bs → decode_hex (encode_hex bs) ≡ some bs
unfolding decode_hex
decode_hex-encode [] h = refl
decode_hex-encode (b ∷ bs) h = rw (hex_byte-digit b h.0, decode_hex-encode bs h.1) refl

digit-hex_digit :
    (c : ℕ) → IsLowerHex c → (n : ℕ) × (hex_digit c ≡ some n) × (n < 16) × (digit n ≡ c)
unfolding hex_digit
digit-hex_digit c (inl h) = (c - 48, ground arith, omega arith, ground arith)
digit-hex_digit c (inr h) = (c - 87, ground arith, omega arith, ground arith)

hex_byte_lower :
    (a b : ℕ)
    → IsLowerHex a
    → IsLowerHex b
    → (x : ℕ) × (hex_byte a b ≡ some x) × (digit (x / 16) ≡ a) × (digit (x % 16) ≡ b)
unfolding hex_byte
hex_byte_lower a b h k =
    let (m, e, l, d) = digit-hex_digit a h in
    let (n, f, o, g) = digit-hex_digit b k in
    (
      m * 16 + n,
      rw (e, f) (ground arith),
      ap (λ (i : ℕ). digit i) {x = (m * 16 + n) / 16} {y = m} (omega arith) ∙ d,
      ap (λ (i : ℕ). digit i) {x = (m * 16 + n) % 16} {y = n} (omega arith) ∙ g,
    )

encode_hex-decode :
    (s : Str) (bs : List ℕ) → All IsLowerHex s → decode_hex s ≡ some bs → encode_hex bs ≡ s
unfolding decode_hex
encode_hex-decode [] bs h e = ground arith
encode_hex-decode (a ∷ []) bs h e = cc
encode_hex-decode (a ∷ b ∷ s) bs (p, (q, h)) e =
    let (x, f, l, r) = hex_byte_lower a b p q in
    elim (Option-cases (decode_hex s)) [
      | inl n ↦ absurd (ground (arith, f, n))
      | inr (xs, g) ↦ let rest = encode_hex-decode s xs h g in ground (arith, f, g, l, r, rest)
    ]

not_whitespace : (c : ℕ) → IsLowerHex c → is_whitespace c ≡ false
unfolding is_whitespace
not_whitespace c (inl h) = ground arith
not_whitespace c (inr h) = ground arith

trim_end_lower : (s : Str) → All IsLowerHex s → trim_end_by is_whitespace s ≡ s
unfolding trim_end_by
trim_end_lower [] h = refl
trim_end_lower (c ∷ []) h = rw (not_whitespace c h.0) refl
trim_end_lower (c ∷ d ∷ s) h = rw (trim_end_lower (d ∷ s) h.1) refl

trim_lower : (s : Str) → All IsLowerHex s → trim s ≡ s
unfolding trim trim_matches trim_start_by
trim_lower [] h = trim_end_lower [] h
trim_lower (c ∷ s) h = rw (not_whitespace c h.0) (trim_end_lower (c ∷ s) h)

verify_lower :
    (hmac : Str → Str → List ℕ) (secret body s : Str)
    → All IsLowerHex s
    → verify_hmac_sha256 hmac secret body s ≡ verify_slice (decode_hex s) (hmac secret body)
unfolding verify_hmac_sha256
verify_lower hmac secret body s h =
    ap (λ (t : Str). verify_slice (decode_hex t) (hmac secret body)) {x = trim s} {y = s}
      (trim_lower s h)

-- If HMAC gives bytes, a signature of lower-case hexadecimal digits is accepted exactly if it is
-- the hexadecimal text of the body's HMAC under the secret.
pub verify_hmac_sha256_iff :
    (hmac : Str → Str → List ℕ) (secret body signature_hex : Str)
    → All (λ b. b < 256) (hmac secret body)
    → All IsLowerHex signature_hex
    → (verify_hmac_sha256 hmac secret body signature_hex ≡ true)
      ↔ (signature_hex ≡ encode_hex (hmac secret body))
verify_hmac_sha256_iff hmac secret body signature_hex bytes lower = (
  λ h. elim (Option-cases (decode_hex signature_hex)) [
    | inl e ↦ absurd (
        cc (
          verify_lower hmac secret body signature_hex lower,
          ap (λ o. verify_slice o (hmac secret body)) e,
        ))
    | inr (provided, e) ↦
        sym (encode_hex-decode signature_hex provided lower e)
        ∙ ap encode_hex (
            str_eq_sound provided _ (
              ap (λ o. verify_slice o (hmac secret body)) (sym e)
              ∙ sym (verify_lower hmac secret body signature_hex lower)
              ∙ h))
  ],
  λ e.
      verify_lower hmac secret body signature_hex lower
      ∙ ap (λ s. verify_slice (decode_hex s) (hmac secret body)) e
      ∙ ap (λ o. verify_slice o (hmac secret body)) (decode_hex-encode (hmac secret body) bytes)
      ∙ str_eq_self (hmac secret body),
)
