-- ===== src/Server/Webhooks/Handlers.antt =====
-- crates/rustify-server/src/routes/webhooks.rs: the five routes. `headers` gives the text of a
-- header, `body` the bytes of the request.
use rustify.Prelude.{
  ℕ, Bool, false, ◌&&◌, Option, none, some, List, [], Str, str_eq, codes, if◌then◌else◌, unwrap_or,
  map, filter, find, ◌==◌, ◌>>=◌ as ◌>>=?◌,
}
use rustify.Prelude.Int.{ℤ, pos, int_eq, parse_i64}
use rustify.Prelude.Chars.{ascii_lower}
use rustify.Core.Webhook.{
  Provider, github, gitea, normalize_full_name, strip_sha256_prefix, verify_plaintext_token,
}
use rustify.Core.Webhook.Repository.{verify_hmac_sha256}
use rustify.Server.Webhooks.{
  Json, Event, ping, push, pull, s, i, event_branch, parse_github_like, parse_gitlab,
  parse_bitbucket,
}
use rustify.Server.Webhooks.Enqueue.{Application, GithubApp, State, World, query}
use rustify.Server.Webhooks.Dispatch.{
  Response, pong, nothing_to_do, invalid_signature, event_not_allowed, internal, filter_manual,
  run_for_apps, join,
}

abbrev pub Headers : Type 0
Headers = Str → Option Str

abbrev pub header_or_empty : Headers → Str → Str
header_or_empty headers name = unwrap_or (headers name) []

-- WHERE git_branch = $1
unfoldable pub list_by_branch : Str → State → List Application
unfolding str_eq
list_by_branch branch t = filter (λ a. str_eq a.git_branch branch) t.applications

abbrev is_source : ℕ → Option ℕ → Bool
is_source id none = false
is_source id (some source) = source == id

abbrev is_repository : ℤ → Option ℤ → Bool
is_repository id none = false
is_repository id (some repository) = int_eq repository id

-- WHERE source_id = $1 AND repository_project_id = $2 AND git_branch = $3
unfoldable pub list_by_source_repo_branch : ℕ → ℤ → Str → State → List Application
unfolding str_eq
list_by_source_repo_branch source repository branch t =
    filter
      (λ a.
        is_source source a.source_id
        && is_repository repository a.repository_project_id
        && str_eq a.git_branch branch)
      t.applications

-- ORDER BY id LIMIT 1: the rows stand in the order of their ids.
unfoldable pub get_by_app_id : ℤ → State → Option GithubApp
get_by_app_id app_id t = find (λ a. int_eq a.app_id app_id) t.github_apps

module _ (J : Json) (W : World) where
  open J use {from_slice}

  -- What the three manual handlers share once the event and the repository are known.
  unfoldable pub run_candidates :
      Option (List Application) → Str → Str → Event → (Str → Bool) → State → Response × State
  unfolding filter_manual run_for_apps
  run_candidates none full_name git_type ev check t = (internal, t)
  run_candidates (some apps) full_name git_type ev check t =
      let (matched, u) = filter_manual W apps full_name git_type check t in
      run_for_apps W matched git_type ev [] u

  unfoldable pub run_manual : Option Str → Str → Event → (Str → Bool) → State → Response × State
  unfolding query list_by_branch run_candidates
  run_manual none git_type ev check t = (nothing_to_do, t)
  run_manual (some full_name) git_type ev check t =
      let (candidates, u) = query W (list_by_branch (event_branch ev)) t in
      run_candidates candidates full_name git_type ev check u

  unfoldable pub hmac_manual : Provider → Str → Str → Headers → Str → State → Response × State
  unfolding parse_github_like normalize_full_name run_manual s str_eq ascii_lower
  hmac_manual provider git_type event_header headers body t =
      let event = map ascii_lower (header_or_empty headers event_header) in
      let sig = strip_sha256_prefix (header_or_empty headers (codes "X-Hub-Signature-256")) in
      if str_eq event (codes "ping") then (pong, t) else (elim (from_slice body) [
        | none ↦ (nothing_to_do, t)
        | some payload ↦ elim (parse_github_like J provider event payload) [
          | none ↦ (nothing_to_do, t)
          | some ev ↦
              run_manual (s J (codes "/repository/full_name") payload >>=? normalize_full_name)
                git_type ev (λ secret. verify_hmac_sha256 W.hmac secret body sig) t
        ]
      ])

  unfoldable pub github_manual : Headers → Str → State → Response × State
  unfolding hmac_manual
  github_manual = hmac_manual github (codes "github") (codes "X-GitHub-Event")

  unfoldable pub gitea_manual : Headers → Str → State → Response × State
  unfolding hmac_manual
  gitea_manual = hmac_manual gitea (codes "gitea") (codes "X-Gitea-Event")

  unfoldable pub gitlab_manual : Headers → Str → State → Response × State
  unfolding parse_gitlab normalize_full_name run_manual s verify_plaintext_token
  gitlab_manual headers body t = elim (from_slice body) [
    | none ↦ (nothing_to_do, t)
    | some payload ↦
        elim (parse_gitlab J (unwrap_or (s J (codes "/object_kind") payload) []) payload) [
          | none ↦ (event_not_allowed, t)
          | some ev ↦
              run_manual
                (s J (codes "/project/path_with_namespace") payload >>=? normalize_full_name)
                (codes "gitlab") ev
                (λ secret.
                  verify_plaintext_token secret (header_or_empty headers (codes "X-Gitlab-Token")))
                t
        ]
  ]

  unfoldable pub bitbucket_manual : Headers → Str → State → Response × State
  unfolding parse_bitbucket normalize_full_name run_manual s
  bitbucket_manual headers body t =
      let sig = strip_sha256_prefix (header_or_empty headers (codes "X-Hub-Signature")) in
      elim (from_slice body) [
        | none ↦ (nothing_to_do, t)
        | some payload ↦
            elim (parse_bitbucket J (header_or_empty headers (codes "X-Event-Key")) payload) [
              | none ↦ (nothing_to_do, t)
              | some ev ↦
                  run_manual (s J (codes "/repository/full_name") payload >>=? normalize_full_name)
                    (codes "bitbucket") ev (λ secret. verify_hmac_sha256 W.hmac secret body sig) t
            ]
      ]

  -- App mode, once the signature is verified.
  unfoldable pub run_app : GithubApp → Json.Value J → Str → State → Response × State
  unfolding parse_github_like list_by_source_repo_branch query run_for_apps i
  run_app gh payload event t = elim (parse_github_like J github event payload) [
    | none ↦ (nothing_to_do, t)
    | some ev ↦
        let repo_id = unwrap_or (i J (codes "/repository/id") payload) (pos 0) in
        let (apps, u) = query W (list_by_source_repo_branch gh.id repo_id (event_branch ev)) t in
        let rest : Response × State = elim apps [
          | none ↦ (internal, u)
          | some found ↦ run_for_apps W found (codes "github") ev [] u
        ] in
        elim ev [ ping ↦ (pong, t) | push _ _ _ ↦ rest | pull _ ↦ rest ]
  ]

  unfoldable pub signed_app :
      GithubApp → Option Str → Headers → Str → Str → State → Response × State
  unfolding run_app
  signed_app gh none headers body event t = (invalid_signature, t)
  signed_app gh (some secret) headers body event t =
      let sig = header_or_empty headers (codes "X-Hub-Signature-256") in
      if verify_hmac_sha256 W.hmac secret body (strip_sha256_prefix sig)
      then (elim (from_slice body) [
        | none ↦ (nothing_to_do, t)
        | some payload ↦ run_app gh payload event t
      ])
      else (invalid_signature, t)

  -- The secret is read by the id of the app.
  unfoldable pub stored_webhook_secret : ℕ → State → Option Str
  stored_webhook_secret id t = find (λ (a : GithubApp). a.id == id) t.github_apps >>=? λ a.
      a.webhook_secret_enc >>=? W.decrypt

  unfoldable pub github_app : Headers → Str → State → Response × State
  unfolding get_by_app_id query signed_app stored_webhook_secret str_eq ascii_lower
  github_app headers body t =
      let event = map ascii_lower (header_or_empty headers (codes "X-GitHub-Event")) in
      if str_eq event (codes "ping")
      then (pong, t)
      else (elim (headers (codes "X-GitHub-Hook-Installation-Target-Id") >>=? parse_i64) [
        | none ↦ (nothing_to_do, t)
        | some target_id ↦
            let (gh, u) = query W (get_by_app_id target_id) t in
            elim (join gh) [
              | none ↦ (nothing_to_do, u)
              | some g ↦
                  let (secret, v) = query W (stored_webhook_secret g.id) u in
                  signed_app g (join secret) headers body event v
            ]
      ])
