-- ===== src/Core/Webhook/Repository.antt =====
-- crates/rustify-core/src/webhook.rs: the owner and name of a repository in the forms of its URL, and
-- the signature of a body. `hmac` is HMAC-SHA256, of the hmac and sha2 crates.
use rustify.Prelude.{
  ℕ, ◌+◌, ◌-◌, ◌*◌, Bool, false, ◌&&◌, Option, none, some, List, [], ◌∷◌, Str, str_eq, codes,
  strip_prefix, map_option, if◌then◌else◌, ◌==◌, leb, ◌>>=◌, unwrap_or,
}
use rustify.Prelude.Chars.{trim, split_once, is_digit}
use rustify.Core.Webhook.{strip_leading_port, normalize_repo_path}

-- `s.split_once(sep)` for a text: what stands before and after its first occurrence.
unfoldable pub split_once_str : Str → Str → Option (Str × Str)
unfolding strip_prefix
split_once_str sep [] = map_option (λ r. ([], r)) (strip_prefix sep [])
split_once_str sep (c ∷ s) =
    let rest = split_once_str sep s in
    elim (strip_prefix sep (c ∷ s)) [
      | some r ↦ some ([], r)
      | none ↦ map_option (λ (q : Str × Str). (c ∷ q.0, q.1)) rest
    ]

-- The path behind the host; the scheme itself is not looked at.
unfoldable pub split_scheme : Str → Option Str
unfolding split_once_str split_once
split_scheme repo = do
  (_, rest) ← split_once_str (codes "://") repo
  some (unwrap_or (map_option (λ (q : Str × Str). q.1) (split_once (λ c. c == 47) rest)) [])

unfoldable pub repository_path : Str → Str
unfolding split_scheme strip_prefix split_once strip_leading_port
repository_path repo = elim (split_scheme repo) [
  | some path ↦ path
  | none ↦ elim (strip_prefix (codes "git@") repo >>= λ r. split_once (λ c. c == 58) r) [
    | some after ↦ strip_leading_port after.1
    | none ↦ repo
  ]
]

unfoldable pub canonical_repository : Str → Option Str
unfolding trim str_eq repository_path normalize_repo_path
canonical_repository git_repository =
    let repo = trim git_repository in
    let path = normalize_repo_path (repository_path repo) in
    if str_eq repo [] then none else if str_eq path [] then none else some path

-- A digit of `u8::from_str_radix(_, 16)`.
unfoldable pub hex_digit : ℕ → Option ℕ
hex_digit c =
    if is_digit c
    then some (c - 48)
    else if leb 97 c && leb c 102
    then some (c - 87)
    else if leb 65 c && leb c 70
    then some (c - 55)
    else none

-- Two characters; a plus sign before one digit is accepted.
unfoldable pub hex_byte : ℕ → ℕ → Option ℕ
unfolding hex_digit
hex_byte a b =
    if a == 43 then hex_digit b else do h ← hex_digit a; l ← hex_digit b; some (h * 16 + l)

unfoldable pub decode_hex : Str → Option (List ℕ)
unfolding hex_byte
decode_hex [] = some []
decode_hex (a ∷ []) = none
decode_hex (a ∷ b ∷ s) = do x ← hex_byte a b; xs ← decode_hex s; some (x ∷ xs)

-- `verify_slice` compares the lengths and the bytes.
abbrev pub verify_slice : Option (List ℕ) → List ℕ → Bool
verify_slice none digest = false
verify_slice (some provided) digest = str_eq provided digest

-- No length of a key is refused.
unfoldable pub verify_hmac_sha256 : (Str → Str → List ℕ) → Str → Str → Str → Bool
unfolding trim decode_hex str_eq
verify_hmac_sha256 hmac secret body signature_hex =
    verify_slice (decode_hex (trim signature_hex)) (hmac secret body)
