-- ===== src/Server/Webhooks/Dispatched.antt =====
-- The run over the applications of an event: what each one adds.
use rustify.Prelude.{
  Bool, true, false, not, inl, inr, List, [], ◌∷◌, ◌++◌, Str, ◌≡◌, refl, In, if◌then◌else◌,
}
use rustify.Core.Webhook.{PrAction, open_pr, close_pr, ignore}
use rustify.Server.Webhooks.{Event, Pull, ping, push, pull}
use rustify.Server.Webhooks.Enqueue.{Application, State, World, deploy_queue_full}
use rustify.Server.Webhooks.Dispatch.{
  Response, Reply, Entry, entry, queue_full, queue_preview, open_preview, close_preview, act,
  dispatch_pull, dispatch_push, dispatch, run_for_apps, public_enabled, instance_public_enabled,
}
use rustify.Server.Webhooks.Queues.{
  Queues, same, Queues-trans, push_deploy-Queues, preview_deploy-Queues, cleanup-Queues,
}

module _ (W : World) (P : Application → Type 0) (ev : Event) where
  if-Queues :
      {A : Type 0} (b : Bool) (t : State) (x y : A × State)
      → Queues W P ev t x.1
      → Queues W P ev t y.1
      → Queues W P ev t (if b then x else y).1
  if-Queues true t x y p q = p
  if-Queues false t x y p q = q

  full-Queues : (t : State) → Queues W P ev t (deploy_queue_full W t).1
  unfolding deploy_queue_full
  full-Queues t = same W P ev t _ refl refl refl

  enabled-Queues : (a : Application) (t : State) → Queues W P ev t (public_enabled W a t).1
  unfolding public_enabled
  enabled-Queues a t =
      if-Queues a.is_pr_deployments_public_enabled t (true, t) (instance_public_enabled W t)
        (same W P ev t t refl refl refl) (same W P ev t _ refl refl refl)

  pub idle : (t : State) → Queues W P ev t t
  idle t = same W P ev t t refl refl refl

module _ (W : World) (P : Application → Type 0) (p : Pull) where
  queue_preview-Queues :
      (a : Application) (git_type : Str) (t : State)
      → P a
      → Queues W P (pull p) t (queue_preview W a git_type p t).1
  unfolding queue_preview
  queue_preview-Queues a git_type t h =
      if-Queues W P (pull p) _ t _ _ (full-Queues W P (pull p) t) (
        Queues-trans W P (pull p) t _ _ (full-Queues W P (pull p) t)
          (preview_deploy-Queues W P (pull p) a p.html_url git_type _ h))

  open_preview-Queues :
      (a : Application) (git_type : Str) (t : State)
      → P a
      → Queues W P (pull p) t (open_preview W a git_type p t).1
  unfolding open_preview
  open_preview-Queues a git_type t h =
      let read = enabled-Queues W P (pull p) a t in
      if-Queues W P (pull p) (not p.pr_deployable_ok) t _ _ (idle W P (pull p) t) (
        if-Queues W P (pull p) _ t _ _ read
          (Queues-trans W P (pull p) t _ _ read (queue_preview-Queues a git_type _ h)))

  act-Queues :
      (action : PrAction) (a : Application) (git_type : Str) (t : State)
      → P a
      → p.action ≡ action
      → Queues W P (pull p) t (act W action a git_type p t).1
  unfolding close_preview
  act-Queues open_pr a git_type t h e = open_preview-Queues a git_type t h
  act-Queues close_pr a git_type t h e = cleanup-Queues W P (pull p) a t h e
  act-Queues ignore a git_type t h e = idle W P (pull p) t

module _ (W : World) (P : Application → Type 0) where
  dispatch-Queues :
      (a : Application) (git_type : Str) (ev : Event) (t : State)
      → P a
      → Queues W P ev t (dispatch W a git_type ev t).1
  unfolding dispatch dispatch_push dispatch_pull
  dispatch-Queues a git_type ping t h = idle W P ping t
  dispatch-Queues a git_type (push branch commit skip) t h =
      let ev = push branch commit skip in
      if-Queues W P ev skip t _ _ (idle W P ev t) (
        if-Queues W P ev _ t _ _ (full-Queues W P ev t)
          (Queues-trans W P ev t _ _ (full-Queues W P ev t) (push_deploy-Queues W P ev a _ h refl)))
  dispatch-Queues a git_type (pull p) t h =
      if-Queues W P (pull p) _ t _ _ (idle W P (pull p) t)
        (act-Queues W P p p.action a git_type t h refl)

  -- Each application of the list has the property that the work is for.
  pub run_for_apps-Queues :
      (apps : List Application) (git_type : Str) (ev : Event) (done : List Entry) (t : State)
      → ((a : Application) → In a apps → P a)
      → Queues W P ev t (run_for_apps W apps git_type ev done t).1
  unfolding run_for_apps
  run_for_apps-Queues [] git_type ev done t h = idle W P ev t
  run_for_apps-Queues (a ∷ apps) git_type ev done t h =
      let first = dispatch-Queues a git_type ev t (h a (inl refl)) in
      let (r, t') = dispatch W a git_type ev t in
      elim r
        as (λ (r : Reply).
          Queues W P ev t
            (elim r as (λ (r : Reply). Response × State) [
              | entry e ↦ run_for_apps W apps git_type ev (done ++ e ∷ []) t'
              | queue_full ↦ (Response.too_many_requests, t')
            ]).1) [
              | entry e ↦
                  Queues-trans W P ev t t' _ first
                    (run_for_apps-Queues apps git_type ev (done ++ e ∷ []) t' (λ b i. h b (inr i)))
              | queue_full ↦ first
            ]
