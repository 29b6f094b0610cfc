-- ===== src/Server/Webhooks/Bounded.antt =====
-- The back-pressure of the webhooks: how many deploy jobs they leave waiting.
use rustify.Prelude.{
  ℕ, ◌+◌, ◌≤◌, Bool, true, Option, none, some, List, [], ◌∷◌, ◌++◌, Str, str_eq, ◌≡◌, refl, arith,
  Bool-cases, inl, inr, count_if, count_if-append, leb,
}
use rustify.Prelude.Int.{ℤ}
use rustify.Core.Webhook.{PrAction, open_pr, close_pr, ignore}
use rustify.Jobs.Queue.{enqueue}
use rustify.Server.Webhooks.{Event, Pull, ping, push, pull}
use rustify.Server.Webhooks.Enqueue.{
  Application, State, World, Db, ◌>>=◌, continue, lift, deploy_kind, query, is_pending,
  insert_deployment, insert_job, upsert_preview, deploy_queue_full, enqueue_push_deploy,
  enqueue_preview_deploy, enqueue_preview_cleanup, deploy_queue_limit,
}
use rustify.Server.Webhooks.Dispatch.{
  Response, Reply, Entry, entry, queue_full, queue_preview, open_preview, close_preview, act,
  dispatch_pull, dispatch_push, dispatch, run_for_apps, public_enabled,
}

-- The deploy jobs that no worker has taken.
abbrev pub pending : State → ℕ
pending t = count_if is_pending t.jobs.rows

module _ {A B : Type 0} (f : A → Db B)
    (next : (a : A) (u : State) → pending (f a u).1 ≤ pending u + 1) where
  continue_one : (n : ℕ) (r : Option A × State) → pending r.1 ≤ n → pending (continue f r).1 ≤ n + 1
  unfolding continue
  continue_one n (none, u) h = omega arith
  continue_one n (some a, u) h = omega (arith, next a u)

  -- A step that queues no job, before one that queues at most one.
  bind_one :
      (m : Db A) (t : State) → pending (m t).1 ≤ pending t → pending ((m >>= f) t).1 ≤ pending t + 1
  unfolding ◌>>=◌
  bind_one m t h = continue_one (pending t) (m t) h

module _ (W : World) where
  query_none : {A : Type 0} (f : State → A) (t : State) → pending (query W f t).1 ≤ pending t
  unfolding query
  query_none f t = omega arith

  lift_none : {A : Type 0} (r : Option A) (t : State) → pending (lift r t).1 ≤ pending t
  unfolding lift
  lift_none r t = omega arith

  insert_none : (new : _) (t : State) → pending (insert_deployment W new t).1 ≤ pending t
  unfolding insert_deployment
  insert_none new t = ground arith

  upsert_none :
      (app : ℕ) (pr : ℤ) (url : Option Str) (git_type : Str) (t : State)
      → pending (upsert_preview W app pr url git_type t).1 ≤ pending t
  unfolding upsert_preview
  upsert_none app pr url git_type t = ground arith

  job_one :
      (dep : Str) (t : State)
      → pending ((insert_job W deploy_kind (W.deploy_payload dep) >>= λ _. lift (some dep)) t).1
        ≤ pending t + 1
  unfolding insert_job enqueue lift ◌>>=◌ continue str_eq
  job_one dep t = elim (Bool-cases (W.reaches t.statements)) [
    | inl e ↦ rw e (omega (arith, count_if-append is_pending t.jobs.rows _))
    | inr e ↦ rw e (omega arith)
  ]

  push_one :
      (a : Application) (commit : Option Str) (t : State)
      → pending (enqueue_push_deploy W a commit t).1 ≤ pending t + 1
  unfolding enqueue_push_deploy
  push_one a commit t =
      bind_one _
        (λ found u.
          bind_one _ (λ server v. bind_one _ job_one _ v (insert_none _ v)) _ u (lift_none found u))
        _ t (query_none _ t)

  preview_one :
      (a : Application) (pr : ℤ) (url commit : Option Str) (git_type : Str) (t : State)
      → pending (enqueue_preview_deploy W a pr url commit git_type t).1 ≤ pending t + 1
  unfolding enqueue_preview_deploy
  preview_one a pr url commit git_type t =
      bind_one _
        (λ found u.
          bind_one _
            (λ server v.
              bind_one _ (λ _ w. bind_one _ job_one _ w (insert_none _ w)) _ v
                (upsert_none _ _ url git_type v))
            _ u (lift_none found u))
        _ t (query_none _ t)

  cleanup_none :
      (a : Application) (pr : ℤ) (t : State)
      → pending (enqueue_preview_cleanup W a pr t).1 ≤ pending t
  unfolding enqueue_preview_cleanup insert_job enqueue str_eq
  cleanup_none a pr t = elim (Bool-cases (W.reaches t.statements)) [
    | inl e ↦ rw e (omega (arith, count_if-append is_pending t.jobs.rows _))
    | inr e ↦ rw e (omega arith)
  ]

  enabled_none : (a : Application) (t : State) → pending (public_enabled W a t).1 ≤ pending t
  unfolding public_enabled
  enabled_none a t = ground arith

  module _ (up : (n : ℕ) → W.reaches n ≡ true) where
    -- The count that the handlers take, when the database answers.
    full_exact :
        (t : State)
        → ((deploy_queue_full W t).0 ≡ leb deploy_queue_limit (pending t))
          × (pending (deploy_queue_full W t).1 ≡ pending t)
    unfolding deploy_queue_full
    full_exact t = (rw (up t.statements) refl, refl)

    queue_preview_bounded :
        (a : Application) (git_type : Str) (p : Pull) (t : State)
        → pending t ≤ deploy_queue_limit
        → pending (queue_preview W a git_type p t).1 ≤ deploy_queue_limit
    unfolding queue_preview
    queue_preview_bounded a git_type p t h =
        let t' = (deploy_queue_full W t).1 in
        let (full, kept) = full_exact t in
        rw full (ground (arith, kept, preview_one a p.pr p.html_url p.commit git_type t'))

    dispatch_push_bounded :
        (a : Application) (branch : Str) (commit : Option Str) (skip : Bool) (t : State)
        → pending t ≤ deploy_queue_limit
        → pending (dispatch_push W a (push branch commit skip) t).1 ≤ deploy_queue_limit
    unfolding dispatch_push
    dispatch_push_bounded a branch commit skip t h =
        let t' = (deploy_queue_full W t).1 in
        let (full, kept) = full_exact t in rw full (ground (arith, kept, push_one a commit t'))

    act_bounded :
        (action : PrAction) (a : Application) (git_type : Str) (p : Pull) (t : State)
        → pending t ≤ deploy_queue_limit
        → pending (act W action a git_type p t).1 ≤ deploy_queue_limit
    unfolding open_preview close_preview
    act_bounded open_pr a git_type p t h =
        let t' = (public_enabled W a t).1 in
        let read = enabled_none a t in
        ground (arith, read, queue_preview_bounded a git_type p t' (omega (arith, read)))
    act_bounded close_pr a git_type p t h = omega (arith, cleanup_none a p.pr t)
    act_bounded ignore a git_type p t h = h

    dispatch_bounded :
        (a : Application) (git_type : Str) (ev : Event) (t : State)
        → pending t ≤ deploy_queue_limit
        → pending (dispatch W a git_type ev t).1 ≤ deploy_queue_limit
    unfolding dispatch dispatch_pull
    dispatch_bounded a git_type ping t h = h
    dispatch_bounded a git_type (push branch commit skip) t h =
        dispatch_push_bounded a branch commit skip t h
    dispatch_bounded a git_type (pull p) t h = ground (arith, act_bounded p.action a git_type p t h)

    -- Where the database answers, and at most 200 deploy jobs wait, at most 200 wait after an event
    -- was run for any list of applications.
    pub run_for_apps_bounded :
        (apps : List Application) (git_type : Str) (ev : Event) (done : List Entry) (t : State)
        → pending t ≤ deploy_queue_limit
        → pending (run_for_apps W apps git_type ev done t).1 ≤ deploy_queue_limit
    unfolding run_for_apps
    run_for_apps_bounded [] git_type ev done t h = h
    run_for_apps_bounded (a ∷ apps) git_type ev done t h =
        let first = dispatch_bounded a git_type ev t h in
        let (r, t') = dispatch W a git_type ev t in
        elim r
          as (λ (r : Reply).
            pending
              (elim r as (λ (r : Reply). Response × State) [
                | entry e ↦ run_for_apps W apps git_type ev (done ++ e ∷ []) t'
                | queue_full ↦ (Response.too_many_requests, t')
              ]).1
            ≤ deploy_queue_limit) [
              | entry e ↦ run_for_apps_bounded apps git_type ev (done ++ e ∷ []) t' first
              | queue_full ↦ first
            ]
