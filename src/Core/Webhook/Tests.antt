-- ===== src/Core/Webhook/Tests.antt =====
-- Payloads of the webhooks.
use rustify.Prelude.{
  ℕ, true, false, Option, none, some, List, [], ◌∷◌, ◌++◌, inl, inr, Str, codes, ◌≡◌, ◌↔◌, refl,
  arith,
}
use rustify.Core.Webhook.{
  verify_plaintext_token, should_skip_deploy_all, classify_pr_action, gitlab, close_pr,
  fork_gate_allows, normalize_full_name, strip_leading_port, strip_sha256_prefix,
}
use rustify.Core.Webhook.Token.{verify_plaintext_token_iff}
use rustify.Core.Webhook.Repository.{canonical_repository, verify_hmac_sha256}
use rustify.Core.Webhook.Signature.{encode_hex, verify_hmac_sha256_iff}

merges : classify_pr_action gitlab (codes "Merge") ≡ close_pr
unfolding classify_pr_action
merges = refl

gate : fork_gate_allows false false (some (codes "member")) ≡ true
unfolding fork_gate_allows
gate = refl

full_name : normalize_full_name (codes " /own-er/repo.git/") ≡ some (codes "own-er/repo")
unfolding normalize_full_name
full_name = refl

port : strip_leading_port (codes "2222/owner/repo") ≡ codes "owner/repo"
unfolding strip_leading_port
port = refl

prefix : strip_sha256_prefix (codes "SHA256=ab") ≡ codes "ab"
unfolding strip_sha256_prefix
prefix = refl

abbrev secret : List ℕ
secret = 1 ∷ 200 ∷ []

abbrev guess : List ℕ
guess = 1 ∷ 201 ∷ []

verify_plaintext_token_iff_example : (verify_plaintext_token secret guess ≡ true) ↔ (secret ≡ guess)
verify_plaintext_token_iff_example =
    verify_plaintext_token_iff secret guess (omega arith, (omega arith, tt))
      (omega arith, (omega arith, tt))

abbrev messages : List (Option Str)
messages = none ∷ some (codes "fix [Skip CI]") ∷ some (codes " ") ∷ []

marked : should_skip_deploy_all messages ≡ true
unfolding should_skip_deploy_all
marked = refl

-- The forms of a repository's address.
https :
    canonical_repository (codes "https://host:8443/owner/repo.git?x=1") ≡ some (codes "owner/repo")
unfolding canonical_repository
https = refl

scp : canonical_repository (codes "git@host:2222/owner/repo.git") ≡ some (codes "owner/repo")
unfolding canonical_repository
scp = refl

-- The cases of letters are kept.
cases : canonical_repository (codes "https://host/Owner/Repo") ≡ some (codes "Owner/Repo")
unfolding canonical_repository
cases = refl

verify_hmac_sha256_iff_example :
    (verify_hmac_sha256 (λ k b. k ++ b) (1 ∷ []) (171 ∷ []) (codes "01ab") ≡ true)
    ↔ (codes "01ab" ≡ encode_hex ((1 ∷ []) ++ (171 ∷ [])))
verify_hmac_sha256_iff_example =
    verify_hmac_sha256_iff (λ k b. k ++ b) (1 ∷ []) (171 ∷ []) (codes "01ab")
      (omega arith, (omega arith, tt))
      (
        inl (omega arith, omega arith),
        (
          inl (omega arith, omega arith),
          (inr (omega arith, omega arith), (inr (omega arith, omega arith), tt)),
        ),
      )
