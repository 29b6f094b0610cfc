-- ===== src/Server/Webhooks/Dispatch.antt =====
-- crates/rustify-server/src/routes/webhooks.rs: what an event does for each application that it is
-- for. Messages are left out of the answers.
use rustify.Prelude.{
  ℕ, Bool, true, false, not, ◌&&◌, ◌||◌, Option, none, some, List, [], ◌∷◌, ◌++◌, Str, str_eq,
  if◌then◌else◌, unwrap_or, codes, find, ◌==◌, ◌>>=◌ as ◌>>=?◌,
}
use rustify.Core.Webhook.{PrAction, open_pr, close_pr, ignore, fork_gate_allows}
use rustify.Core.Webhook.Repository.{canonical_repository}
use rustify.Server.Webhooks.{Event, Pull, ping, push, pull}
use rustify.Server.Webhooks.Enqueue.{
  Application, State, World, query, deploy_queue_full, enqueue_push_deploy, enqueue_preview_deploy,
  enqueue_preview_cleanup, Db,
}

pub data Status : Type 0 where
  success failed skipped : Status

pub record Entry : Type 0 where
  pub application : Str
  pub status : Status
  pub deployment_uuid : Option Str

-- For one application: an entry of the answer, or a 429 for the whole request.
pub data Reply : Type 0 where
  entry : Entry → Reply
  queue_full : Reply

pub data Response : Type 0 where
  pong nothing_to_do invalid_signature event_not_allowed too_many_requests internal : Response
  results : List Entry → Response

abbrev pub reply : Application → Status → Reply
reply app status =
    entry (record { application = app.name; status = status; deployment_uuid = none })

-- A push names the deployment that it queued.
abbrev pub pushed : Application → Option Str → Reply
pushed app none = reply app failed
pushed app (some uuid) =
    entry (record { application = app.name; status = success; deployment_uuid = some uuid })

abbrev pub answered : {A : Type 0} → Application → Option A → Reply
answered app none = reply app failed
answered app (some a) = reply app success

unfoldable pub pr_guard_ok : Application → PrAction → Bool
pr_guard_ok app action =
    app.is_pr_deployments_enabled
    || elim action [ open_pr ↦ false | close_pr ↦ true | ignore ↦ false ]

-- The column of a provider's secret.
unfoldable pub secret_column : Str → Option (Application → Option Str)
unfolding str_eq
secret_column provider =
    if str_eq provider (codes "github")
    then some (λ a. a.manual_webhook_secret_github_enc)
    else if str_eq provider (codes "gitlab")
    then some (λ a. a.manual_webhook_secret_gitlab_enc)
    else if str_eq provider (codes "gitea")
    then some (λ a. a.manual_webhook_secret_gitea_enc)
    else if str_eq provider (codes "bitbucket")
    then some (λ a. a.manual_webhook_secret_bitbucket_enc)
    else none

abbrev pub join : {A : Type 0} → Option (Option A) → Option A
join none = none
join (some a) = a

abbrev pub is_name : Str → Option Str → Bool
is_name full_name none = false
is_name full_name (some name) = str_eq name full_name

abbrev pub same_repository : Str → Application → Bool
same_repository full_name app = is_name full_name (canonical_repository app.git_repository)

abbrev pub passes : (Str → Bool) → Option Str → Bool
passes check none = false
passes check (some secret) = check secret

module _ (W : World) where
  -- A setting that cannot be read counts as off.
  unfoldable pub instance_public_enabled : State → Bool × State
  unfolding query
  instance_public_enabled t =
      let (enabled, t') = query W (λ t. t.public_previews) t in (unwrap_or enabled false, t')

  -- The instance's setting is read only if the application's is off.
  unfoldable pub public_enabled : Application → State → Bool × State
  unfolding instance_public_enabled
  public_enabled app t =
      let read = instance_public_enabled t in
      if app.is_pr_deployments_public_enabled then (true, t) else read

  unfoldable pub queue_preview : Application → Str → Pull → State → Reply × State
  queue_preview app git_type p t =
      let (full, t') = deploy_queue_full W t in
      let (dep, u) = enqueue_preview_deploy W app p.pr p.html_url p.commit git_type t' in
      if full then (queue_full, t') else (answered app dep, u)

  unfoldable pub open_preview : Application → Str → Pull → State → Reply × State
  unfolding public_enabled fork_gate_allows queue_preview
  open_preview app git_type p t =
      let (enabled, t') = public_enabled app t in
      let rest = queue_preview app git_type p t' in
      if not p.pr_deployable_ok
      then (reply app skipped, t)
      else if not (fork_gate_allows enabled p.is_fork p.author_association)
      then (reply app skipped, t')
      else rest

  unfoldable pub close_preview : Application → Pull → State → Reply × State
  close_preview app p t =
      let (done, t') = enqueue_preview_cleanup W app p.pr t in (answered app done, t')

  abbrev pub act : PrAction → Application → Str → Pull → State → Reply × State
  act open_pr app git_type p t = open_preview app git_type p t
  act close_pr app git_type p t = close_preview app p t
  act ignore app git_type p t = (reply app failed, t)

  unfoldable pub dispatch_pull : Application → Str → Event → State → Reply × State
  unfolding open_preview close_preview pr_guard_ok
  dispatch_pull app git_type (pull p) t =
      let rest = act p.action app git_type p t in
      if not (pr_guard_ok app p.action) then (reply app failed, t) else rest
  dispatch_pull app git_type _ t = (reply app failed, t)

  unfoldable pub dispatch_push : Application → Event → State → Reply × State
  dispatch_push app (push branch commit skip) t =
      let (full, t') = deploy_queue_full W t in
      let (dep, u) = enqueue_push_deploy W app commit t' in
      if skip
      then (reply app skipped, t)
      else if full
      then (queue_full, t')
      else (pushed app dep, u)
  dispatch_push app _ t = (reply app failed, t)

  unfoldable pub dispatch : Application → Str → Event → State → Reply × State
  unfolding dispatch_push dispatch_pull
  dispatch app git_type (push branch commit skip) t = dispatch_push app (push branch commit skip) t
  dispatch app git_type (pull p) t = dispatch_pull app git_type (pull p) t
  dispatch app git_type ping t = (reply app failed, t)

  -- The loop over the applications; `done` are the entries so far.
  unfoldable pub run_for_apps :
      List Application → Str → Event → List Entry → State → Response × State
  unfolding dispatch
  run_for_apps [] git_type ev done t = (results done, t)
  run_for_apps (app ∷ apps) git_type ev done t =
      let (r, t') = dispatch app git_type ev t in
      elim r [
        | entry e ↦ run_for_apps apps git_type ev (done ++ e ∷ []) t'
        | queue_full ↦ (too_many_requests, t')
      ]

  unfoldable pub stored_secret : (Application → Option Str) → ℕ → State → Option Str
  stored_secret column id t =
      find (λ (a : Application). a.id == id) t.applications >>=? λ a. column a >>=? W.decrypt

  unfoldable pub read_secret : Option (Application → Option Str) → ℕ → Db Str
  unfolding query stored_secret
  read_secret none id t = (none, t)
  read_secret (some column) id t =
      let (secret, t') = query W (stored_secret column id) t in (join secret, t')

  unfoldable pub decrypt_manual_webhook_secret : ℕ → Str → Db Str
  unfolding secret_column read_secret
  decrypt_manual_webhook_secret id provider t = read_secret (secret_column provider) id t

  -- `check` verifies the request against a secret.
  unfoldable pub filter_manual :
      List Application → Str → Str → (Str → Bool) → State → List Application × State
  unfolding decrypt_manual_webhook_secret
  filter_manual [] full_name git_type check t = ([], t)
  filter_manual (app ∷ apps) full_name git_type check t =
      let (secret, u) = decrypt_manual_webhook_secret app.id git_type t in
      let same = same_repository full_name app in
      let (out, v) = filter_manual apps full_name git_type check (if same then u else t) in
      (if same && passes check secret then app ∷ out else out, v)
