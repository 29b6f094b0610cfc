-- ===== src/Server/Webhooks/Queues.antt =====
-- What a webhook's statements add to the queue, and for whom.
use rustify.Prelude.{
  ℕ, ◌+◌, ◌⊎◌, inl, inr, Option, none, some, List, [], ◌∷◌, ◌++◌, Str, codes, ◌≡◌, refl, subst, In,
  All-map, Extends, Extends-refl, Extends-trans, In-append_left, In-append_right, ◌∙◌, Bool-cases,
}
use rustify.Prelude.Int.{ℤ, pos}
use rustify.Core.Status.{queued}
use rustify.Core.Webhook.{close_pr}
use rustify.Db.Deployments.{Deployment, create_queued}
use rustify.Jobs.Queue.{Job, enqueue}
use rustify.Server.Webhooks.{Event, ping, push, pull}
use rustify.Server.Webhooks.Enqueue.{
  Application, State, World, Db, ◌>>=◌, continue, lift, deploy_kind, query, insert_deployment,
  insert_job, upsert_preview, enqueue_push_deploy, enqueue_preview_deploy, enqueue_preview_cleanup,
  new_deployment,
}

-- The commit and the pull request of an event; a push has number 0.
abbrev pub event_commit : Event → Option Str
event_commit ping = none
event_commit (push branch commit skip) = commit
event_commit (pull p) = p.commit

abbrev pub event_pr : Event → ℤ
event_pr ping = pos 0
event_pr (push branch commit skip) = pos 0
event_pr (pull p) = p.pr

abbrev pub Closes : Event → Type 0
Closes ping = ⊥
Closes (push branch commit skip) = ⊥
Closes (pull p) = p.action ≡ close_pr

-- A queued deployment of one of the applications, at the commit of the event.
abbrev pub DeploymentFor : (Application → Type 0) → Event → Deployment → Type 0
DeploymentFor P ev d =
    (a : Application) × P a
    × (d.application_id ≡ a.id)
    × (d.status ≡ queued)
    × (d.commit_sha ≡ event_commit ev)
    × (d.pull_request_id ≡ event_pr ev)

-- A job that deploys such a row, or that cleans up after a pull request which was closed.
abbrev pub JobFor : World → (Application → Type 0) → Event → List Deployment → Job → Type 0
JobFor W P ev rows j =
    ((d : Deployment) × In d rows
      × DeploymentFor P ev d
      × (j.kind ≡ deploy_kind)
      × (j.payload ≡ W.deploy_payload d.uuid))
    ⊎ ((a : Application) × P a
        × Closes ev
        × (j.kind ≡ codes "preview_cleanup")
        × (j.payload ≡ W.cleanup_payload a.uuid (event_pr ev)))

-- From `t` to `u` the event queued work for such applications only, and dropped nothing.
pub record Queues (W : World) (P : Application → Type 0) (ev : Event) (t u : State) : Type 0 where
  pub new_deployments : Extends (DeploymentFor P ev) t.deployments.rows u.deployments.rows
  pub new_jobs : Extends (JobFor W P ev u.deployments.rows) t.jobs.rows u.jobs.rows
  pub same_applications : u.applications ≡ t.applications

module _ (W : World) (P : Application → Type 0) (ev : Event) where
  JobFor-later :
      (rows more : List Deployment) (j : Job)
      → JobFor W P ev rows j
      → JobFor W P ev (rows ++ more) j
  JobFor-later rows more j (inl (d, i, f, k, p)) = inl (d, In-append_left d rows more i, f, k, p)
  JobFor-later rows more j (inr c) = inr c

  -- Nothing of the queue changed.
  pub same :
      (t u : State)
      → u.deployments ≡ t.deployments
      → u.jobs ≡ t.jobs
      → u.applications ≡ t.applications
      → Queues W P ev t u
  same t u d j a = record {
    new_deployments = rw d (Extends-refl _ t.deployments.rows);
    new_jobs = rw j (Extends-refl _ t.jobs.rows);
    same_applications = a;
  }

  pub Queues-trans : (t u v : State) → Queues W P ev t u → Queues W P ev u v → Queues W P ev t v
  Queues-trans t u v q r =
      let (ds, e, _) = r.new_deployments in
      let (js, f, all) = q.new_jobs in
      record {
        new_deployments = Extends-trans _ _ _ _ q.new_deployments r.new_deployments;
        new_jobs =
            Extends-trans _ _ _ _
              (js, f, rw e (All-map (JobFor-later u.deployments.rows ds) js all)) r.new_jobs;
        same_applications = r.same_applications ∙ q.same_applications;
      }

  module _ {A B : Type 0} where
    continue-Queues :
        (f : A → Db B) (t : State) (r : Option A × State)
        → Queues W P ev t r.1
        → ((a : A) (u : State) → Queues W P ev u (f a u).1)
        → Queues W P ev t (continue f r).1
    unfolding continue
    continue-Queues f t (none, u) q k = q
    continue-Queues f t (some a, u) q k = Queues-trans t u _ q (k a u)

    bind-Queues :
        (m : Db A) (f : A → Db B) (t : State)
        → Queues W P ev t (m t).1
        → ((a : A) (u : State) → Queues W P ev u (f a u).1)
        → Queues W P ev t ((m >>= f) t).1
    unfolding ◌>>=◌
    bind-Queues m f t = continue-Queues f t (m t)

  pub query-Queues : {A : Type 0} (f : State → A) (t : State) → Queues W P ev t (query W f t).1
  unfolding query
  query-Queues f t = same t _ refl refl refl

  lift-Queues : {A : Type 0} (r : Option A) (t : State) → Queues W P ev t (lift r t).1
  unfolding lift
  lift-Queues r t = same t t refl refl refl

  -- The two statements that every deployment takes.
  queue_deploy-Queues :
      (a : Application) (server : ℕ) (git_type : Option Str) (t : State)
      → P a
      → Queues W P ev t
          ((insert_deployment W (new_deployment W a server (event_commit ev) (event_pr ev) git_type)
              >>= λ dep. insert_job W deploy_kind (W.deploy_payload dep) >>= λ _. lift (some dep))
            t).1
  unfolding insert_deployment insert_job create_queued enqueue ◌>>=◌ lift
  queue_deploy-Queues a server git_type t p = elim (Bool-cases (W.reaches t.statements)) [
    | inr e ↦ rw e (same t _ refl refl refl)
    | inl e ↦ elim (Bool-cases (W.reaches (t.statements + 1))) [
      | inr e' ↦
          rw (e, e')
            (record {
              new_deployments = (_ ∷ [], refl, ((a, p, refl, refl, refl, refl), tt));
              new_jobs = Extends-refl _ _;
              same_applications = refl;
            })
      | inl e' ↦
          rw (e, e')
            (record {
              new_deployments = (_ ∷ [], refl, ((a, p, refl, refl, refl, refl), tt));
              new_jobs = (
                _ ∷ [],
                refl,
                (
                  inl (
                    _,
                    In-append_right _ t.deployments.rows _ (inl refl),
                    (a, p, refl, refl, refl, refl),
                    refl,
                    refl,
                  ),
                  tt,
                ),
              );
              same_applications = refl;
            })
    ]
  ]

  pub push_deploy-Queues :
      (a : Application) (t : State)
      → P a
      → event_pr ev ≡ pos 0
      → Queues W P ev t (enqueue_push_deploy W a (event_commit ev) t).1
  unfolding enqueue_push_deploy
  push_deploy-Queues a t p z = bind-Queues _ _ t (query-Queues _ t) λ found u.
      bind-Queues _ _ u (lift-Queues found u) λ server v.
        subst
          (λ (n : ℤ).
            Queues W P ev v
              ((insert_deployment W (new_deployment W a server (event_commit ev) n none) >>= λ dep.
                  insert_job W deploy_kind (W.deploy_payload dep) >>= λ _. lift (some dep))
                v).1)
          z (queue_deploy-Queues a server none v p)

  upsert-Queues :
      (app : ℕ) (pr : ℤ) (html_url : Option Str) (git_type : Str) (t : State)
      → Queues W P ev t (upsert_preview W app pr html_url git_type t).1
  unfolding upsert_preview
  upsert-Queues app pr html_url git_type t = elim (Bool-cases (W.reaches t.statements)) [
    | inl e ↦ rw e (same t _ refl refl refl)
    | inr e ↦ rw e (same t _ refl refl refl)
  ]

  pub preview_deploy-Queues :
      (a : Application) (html_url : Option Str) (git_type : Str) (t : State)
      → P a
      → Queues W P ev t
          (enqueue_preview_deploy W a (event_pr ev) html_url (event_commit ev) git_type t).1
  unfolding enqueue_preview_deploy
  preview_deploy-Queues a html_url git_type t p = bind-Queues _ _ t (query-Queues _ t) λ found u.
      bind-Queues _ _ u (lift-Queues found u) λ server v.
        bind-Queues _ _ v (upsert-Queues _ _ html_url git_type v)
          λ _ w. queue_deploy-Queues a server (some git_type) w p

  pub cleanup-Queues :
      (a : Application) (t : State)
      → P a
      → Closes ev
      → Queues W P ev t (enqueue_preview_cleanup W a (event_pr ev) t).1
  unfolding enqueue_preview_cleanup insert_job enqueue
  cleanup-Queues a t p c = elim (Bool-cases (W.reaches t.statements)) [
    | inl e ↦ rw e (record {
      new_deployments = Extends-refl _ _;
      new_jobs = (_ ∷ [], refl, (inr (a, p, c, refl, refl), tt));
      same_applications = refl;
    })
    | inr e ↦ rw e (same t _ refl refl refl)
  ]

DeploymentFor-weaken :
    (P Q : Application → Type 0) (ev : Event) (f : (a : Application) → P a → Q a) (d : Deployment)
    → DeploymentFor P ev d
    → DeploymentFor Q ev d
DeploymentFor-weaken P Q ev f d (a, p, e, q, c, n) = (a, f a p, e, q, c, n)

JobFor-weaken :
    (W : World) (P Q : Application → Type 0) (ev : Event) (f : (a : Application) → P a → Q a)
    (rows : List Deployment) (j : Job)
    → JobFor W P ev rows j
    → JobFor W Q ev rows j
JobFor-weaken W P Q ev f rows j (inl (d, i, h, k, p)) =
    inl (d, i, DeploymentFor-weaken P Q ev f d h, k, p)
JobFor-weaken W P Q ev f rows j (inr (a, p, c, k, l)) = inr (a, f a p, c, k, l)

pub Queues_weaken :
    (W : World) (P Q : Application → Type 0) (ev : Event) (t u : State)
    → ((a : Application) → P a → Q a)
    → Queues W P ev t u
    → Queues W Q ev t u
Queues_weaken W P Q ev t u f q =
    let (ds, e, all) = q.new_deployments in
    let (js, g, every) = q.new_jobs in
    record {
      new_deployments = (ds, e, All-map (DeploymentFor-weaken P Q ev f) ds all);
      new_jobs = (js, g, All-map (JobFor-weaken W P Q ev f u.deployments.rows) js every);
      same_applications = q.same_applications;
    }
