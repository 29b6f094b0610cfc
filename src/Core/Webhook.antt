-- ===== src/Core/Webhook.antt =====
-- crates/rustify-core/src/webhook.rs: what the webhook routes decide from a payload. The HMAC of the
-- hmac and sha2 crates is an argument. Texts are ASCII where lengths in bytes matter.
pub mod Token
pub mod Gate
pub mod Repository
pub mod Signature
mod Tests
use rustify.Prelude.{
  ℕ, zero, suc, ◌+◌, ◌*◌, ◌-◌, ◌/◌, ◌%◌, Bool, true, false, not, ◌&&◌, ◌||◌, Option, none, some,
  List, [], ◌∷◌, ◌++◌, map, Str, str_eq, codes, contains, starts_with, strip_prefix, any, all,
  filter, length, if◌then◌else◌, ◌==◌, ltb, leb, map_option, unwrap_or,
}
use rustify.Prelude.Int.{ℤ, int_eq}
use rustify.Prelude.Chars.{
  trim, trim_matches, ascii_lower, ascii_upper, split_once, split, is_digit, is_alphanumeric,
}

pub data Provider : Type 0 where
  github gitea gitlab bitbucket : Provider

pub data PrAction : Type 0 where
  open_pr close_pr ignore : PrAction

abbrev one_of : Str → List Str → Bool
one_of s = any (λ t. str_eq s t)

unfoldable pub classify_pr_action : Provider → Str → PrAction
unfolding str_eq ascii_lower
classify_pr_action provider action =
    let a = map ascii_lower action in
    let by = λ (opening closing : List Str).
      if one_of a opening then open_pr else if one_of a closing then close_pr else ignore in
    elim provider [
      | github ↦
          by (codes "opened" ∷ codes "synchronize" ∷ codes "reopened" ∷ []) (codes "closed" ∷ [])
      | gitea ↦
          by (codes "opened" ∷ codes "synchronized" ∷ codes "reopened" ∷ []) (codes "closed" ∷ [])
      | gitlab ↦
          by
            (codes "open"
              ∷ codes "opened"
              ∷ codes "synchronize"
              ∷ codes "reopened"
              ∷ codes "reopen"
              ∷ codes "update"
              ∷ [])
            (codes "close" ∷ codes "closed" ∷ codes "merge" ∷ [])
      | bitbucket ↦
          by (codes "pullrequest:created" ∷ codes "pullrequest:updated" ∷ [])
            (codes "pullrequest:rejected" ∷ codes "pullrequest:fulfilled" ∷ [])
    ]

-- `^` and `|` on integers of a number of bits.
unfoldable pub xor_bits : ℕ → ℕ → ℕ → ℕ
xor_bits zero a b = 0
xor_bits (suc n) a b = (a % 2 + b % 2) % 2 + 2 * xor_bits n (a / 2) (b / 2)

unfoldable pub or_bits : ℕ → ℕ → ℕ → ℕ
or_bits zero a b = 0
or_bits (suc n) a b =
    (if (a % 2 == 0) && (b % 2 == 0) then 0 else 1) + 2 * or_bits n (a / 2) (b / 2)

-- The loop over the zipped bytes.
unfoldable pub differences : ℕ → List ℕ → List ℕ → ℕ
unfolding xor_bits or_bits
differences diff (a ∷ s) (b ∷ t) = differences (or_bits 8 diff (xor_bits 8 a b)) s t
differences diff _ _ = diff

unfoldable pub verify_plaintext_token : List ℕ → List ℕ → Bool
unfolding differences
verify_plaintext_token secret provided =
    if not (length secret == length provided) then false else differences 0 secret provided == 0

unfoldable pub strip_sha256_prefix : Str → Str
unfolding strip_prefix
strip_sha256_prefix header = elim (strip_prefix (codes "sha256=") header) [
  | some rest ↦ rest
  | none ↦ unwrap_or (strip_prefix (codes "SHA256=") header) header
]

unfoldable pub strip_refs_heads : Str → Str
unfolding strip_prefix
strip_refs_heads git_ref = unwrap_or (strip_prefix (codes "refs/heads/") git_ref) git_ref

unfoldable pub contains_skip : Str → Bool
unfolding contains ascii_lower
contains_skip message =
    let lower = map ascii_lower message in
    contains (codes "[skip ci]") lower || contains (codes "[skip cd]") lower

abbrev pub flatten : List (Option Str) → List Str
flatten [] = []
flatten (none ∷ ms) = flatten ms
flatten (some m ∷ ms) = m ∷ flatten ms

unfoldable pub should_skip_deploy_any : List (Option Str) → Bool
unfolding contains_skip
should_skip_deploy_any messages = any contains_skip (flatten messages)

unfoldable pub should_skip_deploy_all : List (Option Str) → Bool
unfolding contains_skip trim str_eq
should_skip_deploy_all messages =
    let present = filter (λ m. not (str_eq (trim m) [])) (flatten messages) in
    not (length present == 0) && all contains_skip present

unfoldable pub is_fork_pull_request : Option ℤ → Option ℤ → Bool
is_fork_pull_request (some h) (some b) = not (int_eq h b)
is_fork_pull_request _ _ = false

abbrev pub trusted : Str → Bool
trusted a =
    str_eq a (codes "OWNER") || (str_eq a (codes "MEMBER") || str_eq a (codes "COLLABORATOR"))

unfoldable pub fork_gate_allows : Bool → Bool → Option Str → Bool
unfolding str_eq ascii_upper
fork_gate_allows public_enabled is_fork author_association =
    if public_enabled
    then true
    else if is_fork
    then false
    else unwrap_or (map_option (λ s. trusted (map ascii_upper s)) author_association) false

abbrev is_slash : ℕ → Bool
is_slash c = c == 47

unfoldable pub strip_suffix : Str → Str → Option Str
unfolding str_eq
strip_suffix p [] = if str_eq p [] then some [] else none
strip_suffix p (c ∷ s) =
    let rest = strip_suffix p s in
    if str_eq p (c ∷ s) then some [] else map_option (λ t. c ∷ t) rest

unfoldable pub normalize_repo_path : Str → Str
unfolding trim trim_matches split_once strip_suffix
normalize_repo_path path =
    let p = trim path in
    let p =
      unwrap_or (map_option (λ (q : Str × Str). q.0) (split_once (λ c. (c == 63) || (c == 35)) p))
        p in
    let p = trim_matches is_slash p in unwrap_or (strip_suffix (codes ".git") p) p

unfoldable pub strip_leading_port : Str → Str
unfolding split_once str_eq
strip_leading_port path = elim (split_once is_slash path) [
  | none ↦ path
  | some q ↦ if not (str_eq q.0 []) && all is_digit q.0 then q.1 else path
]

unfoldable pub normalize_full_name : Str → Option Str
unfolding trim trim_matches split str_eq contains normalize_repo_path
normalize_full_name full_name =
    let trimmed = trim_matches is_slash (trim full_name) in
    let valid =
      all
        (λ seg.
          not (str_eq seg [])
          && all (λ c. is_alphanumeric c || ((c == 95) || ((c == 46) || (c == 45)))) seg)
        (split 47 trimmed)
      && contains (codes "/") trimmed in
    if str_eq trimmed []
    then none
    else if not valid
    then none
    else some (normalize_repo_path trimmed)
