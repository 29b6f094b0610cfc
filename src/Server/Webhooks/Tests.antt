-- ===== src/Server/Webhooks/Tests.antt =====
-- A push to a repository of the instance, with a small JSON and a toy HMAC.
use rustify.Prelude.{
  ℕ, ◌≤◌, true, false, Option, none, some, List, [], ◌∷◌, ◌++◌, Str, str_eq, codes, ◌≡◌, refl,
  arith, map_option, if◌then◌else◌,
}
use rustify.Core.Webhook.{github, strip_sha256_prefix}
use rustify.Core.Webhook.Repository.{canonical_repository, verify_hmac_sha256}
use rustify.Db.Deployments.{create_queued}
use rustify.Core.Webhook.Signature.{encode_hex}
use rustify.Server.Webhooks.{Json, Event, push, event_branch}
use rustify.Server.Webhooks.Enqueue.{
  Application, State, World, deploy_queue_limit, deploy_queue_full, enqueue_push_deploy, ◌>>=◌,
  lift, server_id, insert_deployment, insert_job,
}
use rustify.Server.Webhooks.Dispatch.{results, success, run_for_apps}
use rustify.Server.Webhooks.Handlers.{Headers, hmac_manual}
use rustify.Server.Webhooks.Queues.{Queues}
use rustify.Server.Webhooks.Authentic.{Requested, hmac_manual-Queues}
use rustify.Server.Webhooks.Bounded.{pending, run_for_apps_bounded}

-- An object with texts for its pointers, or a text.
data Doc : Type 0 where
  object : List (Str × Str) → Doc
  text : Str → Doc

find_text : Str → List (Str × Str) → Option Str
unfolding str_eq
find_text k [] = none
find_text k ((j, v) ∷ fields) = let rest = find_text k fields in if str_eq j k then some v else rest

pointer : Str → Doc → Option Doc
unfolding find_text
pointer p (object fields) = map_option text (find_text p fields)
pointer p (text s) = none

as_str : Doc → Option Str
as_str (object fields) = none
as_str (text s) = some s

abbrev pushed_doc : Doc
pushed_doc = object (
    (codes "/ref", codes "refs/heads/main")
    ∷ (codes "/after", codes "abc1")
    ∷ (codes "/repository/full_name", codes "owner/repo")
    ∷ [])

abbrev body : Str
body = 1 ∷ 2 ∷ []

abbrev json : Json
json = record {
  Value = Doc;
  from_slice = λ b. if str_eq b body then some pushed_doc else none;
  pointer = pointer;
  as_str = as_str;
  as_i64 = λ _. none;
  as_array = λ _. none;
}

abbrev world : World
world = record {
  reaches = λ _. true;
  now = λ n. n;
  uuid = λ n. n ∷ [];
  decrypt = λ bytes. some bytes;
  deploy_payload = λ uuid. uuid;
  cleanup_payload = λ uuid _. uuid;
  hmac = λ secret body. secret ++ body;
}

abbrev app : ℕ → Str → Application
app id secret = record {
  id = id;
  uuid = id ∷ [];
  name = codes "shop";
  destination_id = 1;
  git_repository = codes "git@host:owner/repo.git";
  git_branch = codes "main";
  source_id = none;
  repository_project_id = none;
  is_pr_deployments_enabled = true;
  is_pr_deployments_public_enabled = false;
  manual_webhook_secret_github_enc = some secret;
  manual_webhook_secret_gitlab_enc = none;
  manual_webhook_secret_gitea_enc = none;
  manual_webhook_secret_bitbucket_enc = none;
}

abbrev instance_state : State
instance_state = record {
  statements = 0;
  applications = app 7 (9 ∷ []) ∷ app 8 (10 ∷ []) ∷ [];
  github_apps = [];
  destinations = record { id = 1; server_id = 5 } ∷ [];
  public_previews = false;
  previews = record { rows = []; next_id = 1 };
  deployments = record { rows = []; next_id = 1 };
  jobs = record { rows = []; next_id = 1 };
}

abbrev headers : Headers
headers name =
    if str_eq name (codes "X-GitHub-Event")
    then some (codes "push")
    else if str_eq name (codes "X-Hub-Signature-256")
    then some (codes "sha256=" ++ encode_hex (9 ∷ 1 ∷ 2 ∷ []))
    else none

-- Of two applications of the repository, the one whose secret signs is deployed.
deploys_signer :
    (hmac_manual json world github
      (codes "github")
      (codes "X-GitHub-Event")
      headers
      body
      instance_state).0
    ≡ results (
        record { application = codes "shop"; status = success; deployment_uuid = some (5 ∷ []) }
        ∷ [])
unfolding hmac_manual str_eq find_text pointer as_str event_branch canonical_repository
    verify_hmac_sha256 strip_sha256_prefix deploy_queue_full enqueue_push_deploy ◌>>=◌ lift
    server_id insert_deployment insert_job create_queued
deploys_signer = refl

hmac_manual-Queues_example :
    (ev : Event) × Queues world
      (Requested json world github
        (codes "github")
        (codes "X-GitHub-Event")
        headers
        body
        instance_state
        ev)
      ev
      instance_state
      (hmac_manual json world github
        (codes "github")
        (codes "X-GitHub-Event")
        headers
        body
        instance_state).1
hmac_manual-Queues_example =
    hmac_manual-Queues json world github (codes "github") (codes "X-GitHub-Event") headers body
      instance_state

run_for_apps_bounded_example :
    pending
      (run_for_apps world instance_state.applications
        (codes "github")
        (push (codes "main") none false)
        []
        instance_state).1
    ≤ deploy_queue_limit
run_for_apps_bounded_example =
    run_for_apps_bounded world (λ _. refl) instance_state.applications (codes "github")
      (push (codes "main") none false) [] instance_state (omega arith)
