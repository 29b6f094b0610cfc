-- ===== src/Server/Webhooks/Enqueue.antt =====
-- crates/rustify-server/src/routes/webhooks.rs: the statements that queue work. Each statement is a
-- transaction of its own, and may fail to reach the database.
use rustify.Prelude.{
  ℕ, ◌+◌, Bool, true, false, ◌&&◌, Option, none, some, List, Str, str_eq, codes, ◌==◌, leb,
  if◌then◌else◌, map_option, unwrap_or, find, count_if,
}
use rustify.Prelude.Int.{ℤ, pos}
use rustify.Db.Deployments.{NewDeployment, Table, create_queued}
use rustify.Db.Previews.{Previews, upsert}
use rustify.Jobs.Queue.{Job, Jobs, enqueue}

-- The columns of an application that the webhooks read.
pub record Application : Type 0 where
  pub id : ℕ
  pub uuid : Str
  pub name : Str
  pub destination_id : ℕ
  pub git_repository : Str
  pub git_branch : Str
  pub source_id : Option ℕ
  pub repository_project_id : Option ℤ
  pub is_pr_deployments_enabled : Bool
  pub is_pr_deployments_public_enabled : Bool
  pub manual_webhook_secret_github_enc : Option Str
  pub manual_webhook_secret_gitlab_enc : Option Str
  pub manual_webhook_secret_gitea_enc : Option Str
  pub manual_webhook_secret_bitbucket_enc : Option Str

pub record GithubApp : Type 0 where
  pub id : ℕ
  pub app_id : ℤ
  pub webhook_secret_enc : Option Str

pub record Destination : Type 0 where
  pub id : ℕ
  pub server_id : ℕ

-- The tables, and the number of statements so far.
pub record State : Type 0 where
  pub statements : ℕ
  pub applications : List Application
  pub github_apps : List GithubApp
  pub destinations : List Destination
  pub public_previews : Bool  -- of the row of settings
  pub previews : Previews
  pub deployments : Table
  pub jobs : Jobs

-- Whether the n-th statement reaches the database, its time, the identifier drawn for it, and code
-- of other crates: the decryption of a column, the payloads that serde_json writes, and HMAC-SHA256.
pub record World : Type 0 where
  pub reaches : ℕ → Bool
  pub now : ℕ → ℕ
  pub uuid : ℕ → Str
  pub decrypt : Str → Option Str
  pub deploy_payload : Str → Str
  pub cleanup_payload : Str → ℤ → Str
  pub hmac : Str → Str → Str

-- A call that answers `none` where it fails.
abbrev pub Db : Type 0 → Type 0
Db A = State → Option A × State

unfoldable pub continue : {A B : Type 0} → (A → Db B) → Option A × State → Option B × State
continue f (none, t) = (none, t)
continue f (some a, t) = f a t

infixl 5 ◌>>=◌
unfoldable pub ◌>>=◌ : {A B : Type 0} → Db A → (A → Db B) → Db B
unfolding continue
(m >>= f) t = continue f (m t)

unfoldable pub lift : {A : Type 0} → Option A → Db A
lift a t = (a, t)

abbrev pub counted : State → State
counted t = record t { statements = t.statements + 1 }

abbrev pub deploy_kind : Str
deploy_kind = codes "deploy"

-- kind = 'deploy' AND locked_at IS NULL
abbrev pub is_pending : Job → Bool
is_pending j = str_eq j.kind deploy_kind && elim j.locked_at [ none ↦ true | some _ ↦ false ]

abbrev pub deploy_queue_limit : ℕ
deploy_queue_limit = 200

-- SELECT d.server_id FROM applications a JOIN destinations d …
unfoldable pub server_id : ℕ → State → Option ℕ
server_id app t = elim (find (λ a. a.id == app) t.applications) [
  | none ↦ none
  | some a ↦
      map_option (λ (d : Destination). d.server_id)
        (find (λ d. d.id == a.destination_id) t.destinations)
]

module _ (W : World) where
  open W use {reaches, now, uuid, deploy_payload, cleanup_payload}

  unfoldable pub query : {A : Type 0} → (State → A) → Db A
  query f t = (if reaches t.statements then some (f t) else none, counted t)

  unfoldable pub insert_deployment : NewDeployment → Db Str
  insert_deployment new t =
      let n = t.statements in
      let (row, table) = create_queued new (uuid n) (now n) t.deployments in
      if reaches n
      then (some row.uuid, record (counted t) { deployments = table })
      else (none, counted t)

  unfoldable pub insert_job : Str → Str → Db (Unit {0})
  insert_job kind payload t =
      let n = t.statements in
      if reaches n
      then (some tt, record (counted t) { jobs = (enqueue kind payload none (now n) t.jobs).1 })
      else (none, counted t)

  unfoldable pub upsert_preview : ℕ → ℤ → Option Str → Str → Db (Unit {0})
  upsert_preview app pr html_url git_type t =
      let n = t.statements in
      if reaches n
      then (
        some tt,
        record (counted t) {
          previews = upsert app pr html_url (some git_type) (uuid n) (now n) t.previews;
        },
      )
      else (none, counted t)

  -- A count that fails is taken as zero.
  unfoldable pub deploy_queue_full : State → Bool × State
  unfolding query
  deploy_queue_full t =
      let (count, t') = query (λ t. count_if is_pending t.jobs.rows) t in
      (leb deploy_queue_limit (unwrap_or count 0), t')

  -- ..Default::default() for the other fields.
  abbrev pub new_deployment : Application → ℕ → Option Str → ℤ → Option Str → NewDeployment
  new_deployment app server commit pr git_type = record {
    application_id = app.id;
    server_id = server;
    commit_sha = commit;
    commit_message = none;
    force_rebuild = false;
    rollback = false;
    config_snapshot = none;
    pull_request_id = pr;
    git_type = git_type;
  }

  unfoldable pub enqueue_push_deploy : Application → Option Str → Db Str
  enqueue_push_deploy app commit = do
    found ← query (server_id app.id)
    server ← lift found
    dep ← insert_deployment (new_deployment app server commit (pos 0) none)
    _ ← insert_job deploy_kind (deploy_payload dep)
    lift (some dep)

  unfoldable pub enqueue_preview_deploy : Application → ℤ → Option Str → Option Str → Str → Db Str
  enqueue_preview_deploy app pr html_url commit git_type = do
    found ← query (server_id app.id)
    server ← lift found
    _ ← upsert_preview app.id pr html_url git_type
    dep ← insert_deployment (new_deployment app server commit pr (some git_type))
    _ ← insert_job deploy_kind (deploy_payload dep)
    lift (some dep)

  unfoldable pub enqueue_preview_cleanup : Application → ℤ → Db (Unit {0})
  enqueue_preview_cleanup app pr =
      insert_job (codes "preview_cleanup") (cleanup_payload app.uuid pr)
