-- ===== src/Deploy/Engine/Conclusion.antt =====
-- A claimed deployment ends in a terminal state, and a claim asks nothing of admission control.
use rustify.Prelude.{
  ℕ, Bool, true, false, Option, some, Str, ◌≡◌, refl, sym, subst, ap, ◌∙◌, arith, inl, inr,
  Option-cases, Bool-cases,
}
use rustify.Prelude.Keyed.{row, Unique}
use rustify.Core.Status.{
  DeploymentStatus, queued, in_progress, status_eq, is_terminal, can_transition_to,
}
use rustify.Db.Deployments.{
  Deployment, transition, moved_to, next_queuable, is_admissible, deployment_keyed,
}
use rustify.Db.Deployments.Legality.{transition_exact, attempt}
use rustify.Db.Deployments.History.{IsValid, move, admit, Step-IsValid, Reach, here, next}
use rustify.Db.Deployments.Frozen.{Reach-IsLater}
use rustify.Deploy.Engine.{
  after_transition, Shared, Outcome, Target, Reached, set_status, claim, conclusion, queue_next,
  conclude, run_deployment,
}
use rustify.Deploy.Engine.Changes.{Changes, HasStarted, Started, Changes-Started}

set_status-table :
    (reached : Bool) (d : Target) (status : DeploymentStatus) (now : ℕ) (s : Shared)
    → reached ≡ true
    → (set_status reached d status now s).1.deployments
      ≡ (transition d.id status now s.deployments).1
unfolding set_status
set_status-table reached d status now s b = rw b refl

queue_next-Reach :
    (payload : Str → Str) (reached : Reached) (locked : ℕ → Bool) (server : ℕ) (limit : Option ℕ)
    (now : ℕ) (s : Shared)
    → Reach s.deployments (queue_next payload reached locked server limit now s).1.deployments
unfolding queue_next
queue_next-Reach payload reached locked server limit now s =
    let step : Reach s.deployments (next_queuable locked server limit now s.deployments).1 =
      next here (admit locked server limit now) in
    elim (Bool-cases reached.admitted) [
      | inr a ↦ rw (queue_next, a) here
      | inl a ↦ elim (Option-cases (next_queuable locked server limit now s.deployments).0) [
        | inl e ↦ rw (queue_next, a, e) step
        | inr (d, e) ↦ elim (Bool-cases reached.enqueued) [
          | inl q ↦ rw (queue_next, a, e, q) step
          | inr q ↦ rw (queue_next, a, e, q) step
        ]
      ]
    ]

answered-table :
    (looked_up : Bool) (d : Target) (moved : Bool) (s : Shared)
    → (after_transition looked_up d (some moved, s)).1 ≡ s
answered-table looked_up d true s = refl
answered-table looked_up d false s = refl

unreached :
    (d : Target) (status : DeploymentStatus) (now : ℕ) (s : Shared) (won : Bool) (b : Bool)
    → (after_transition b d (set_status false d status now s)).0 ≡ some won
    → ⊥
unfolding set_status
unreached d status now s won b h = ground arith

-- An answer of the claim has applied the transition to the table.
claim-table :
    (reached : Reached) (d : Target) (now : ℕ) (s : Shared) (won : Bool)
    → (claim reached d now s).0 ≡ some won
    → (claim reached d now s).1.deployments ≡ (transition d.id in_progress now s.deployments).1
unfolding claim set_status
claim-table reached d now s won h = elim (Bool-cases reached.started) [
  | inl e ↦
      rw (claim, set_status, e)
        (ap (λ (x : Shared). x.deployments)
          (answered-table reached.looked_up d (transition d.id in_progress now s.deployments).0 _))
  | inr e ↦ absurd (
      unreached d in_progress now s won reached.looked_up (
        subst
          (λ b.
            (after_transition reached.looked_up d (set_status b d in_progress now s)).0 ≡ some won)
          e h))
]

claim-moved :
    (reached : Reached) (d : Target) (now : ℕ) (s : Shared)
    → reached.started ≡ true
    → (transition d.id in_progress now s.deployments).0 ≡ true
    → (claim reached d now s).0 ≡ some true
unfolding claim set_status
claim-moved reached d now s r e = rw (claim, set_status, r, e) refl

attempt_queued :
    (now : ℕ) (d : Deployment)
    → d.status ≡ queued
    → some (attempt in_progress now d) ≡ some (moved_to in_progress now d)
unfolding can_transition_to
attempt_queued now d q = rw q refl

-- In a table with unique keys, the claim of a queued row succeeds and starts the row if its statement
-- reaches the database, even where admission control does not admit the row.
pub claim_unadmitted :
    (reached : Reached) (locked : ℕ → Bool) (limit : Option ℕ) (target : Target) (now : ℕ)
    (s : Shared) (d : Deployment)
    → reached.started ≡ true
    → Unique s.deployments.rows
    → row target.id s.deployments.rows ≡ some d
    → d.status ≡ queued
    → is_admissible locked target.server limit s.deployments.rows d ≡ false
    → ((claim reached target now s).0 ≡ some true)
      × (row target.id (claim reached target now s).1.deployments.rows
          ≡ some (moved_to in_progress now d))
unfolding can_transition_to
claim_unadmitted reached locked limit target now s d r u h q a =
    let (flag, moved, _) = transition_exact target.id in_progress now s.deployments d u h in
    let won = claim-moved reached target now s r (flag ∙ rw q refl) in
    (
      won,
      subst (λ t. row target.id t.rows ≡ some (moved_to in_progress now d))
          (sym (claim-table reached target now s true won)) (moved ∙ attempt_queued now d q),
    )

attempt-HasStarted : (now : ℕ) (d : Deployment) → HasStarted (attempt in_progress now d)
unfolding can_transition_to is_terminal status_eq moved_to
attempt-HasStarted now d = ground arith

concluded :
    (o : Outcome) (now : ℕ) (d : Deployment)
    → HasStarted d
    → is_terminal (attempt (conclusion o) now d).status ≡ true
unfolding can_transition_to is_terminal status_eq moved_to conclusion
concluded o now d h = ground arith

-- The end of a run whose last transition reaches the database.
conclude-ended :
    (payload : Str → Str) (reached : Reached) (locked : ℕ → Bool) (limit : Option ℕ) (later : ℕ)
    (d : Target) (o : Outcome) (s : Shared) (r : Deployment)
    → reached.concluded ≡ true
    → IsValid s.deployments
    → row d.id s.deployments.rows ≡ some r
    → HasStarted r
    → ((conclude payload reached locked limit later d o s).0 ≡ true)
      × (e : Deployment) × (row d.id
            (conclude payload reached locked limit later d o s).1.deployments.rows
          ≡ some e)
      × (is_terminal e.status ≡ true)
unfolding conclude
conclude-ended payload reached locked limit later d o s r b v h k =
    let s' = (set_status reached.concluded d (conclusion o) later s).1 in
    let terminal = concluded o later r k in
    let table = sym (set_status-table reached.concluded d (conclusion o) later s b) in
    let moved = (transition_exact d.id (conclusion o) later s.deployments r v.unique h).1 in
    let (_, (e, found, l)) =
      Reach-IsLater d.id (attempt (conclusion o) later r)
        (subst IsValid table (Step-IsValid (move d.id (conclusion o) later) v))
        (subst (λ t. row d.id t.rows ≡ some (attempt (conclusion o) later r)) table moved)
        (queue_next-Reach payload reached locked d.server limit later s') in
    rw (conclude, set_status, b)
      (
        refl,
        e,
        found,
        subst (λ (x : Deployment). is_terminal x.status ≡ true) (sym (l.frozen terminal)) terminal,
      )

module _ (payload : Str → Str) (reached : Reached) (steps : Shared → Outcome × Shared)
    (locked : ℕ → Bool) (limit : Option ℕ) (now later : ℕ) where
  -- From a valid table, if during its steps this engine and the other tasks change the table only by
  -- the operations of the repository and by writing commits (the application is not deleted), and if
  -- the last transition reaches the database, then a run that wins its claim answers without an error and leaves the row in a terminal
  -- state, however the steps end and whatever becomes of the statements that drain the queue.
  pub run_deployment-IsTerminal :
      (d : Target) (s : Shared) (r : Deployment)
      → IsValid s.deployments
      → row d.id s.deployments.rows ≡ some r
      → (claim reached d now s).0 ≡ some true
      → reached.concluded ≡ true
      → ((t : Shared) → Changes t.deployments (steps t).1.deployments)
      → ((run_deployment payload reached steps locked limit now later d s).0 ≡ true)
        × (e : Deployment) × (row d.id
              (run_deployment payload reached steps locked limit now later d s).1.deployments.rows
            ≡ some e)
        × (is_terminal e.status ≡ true)
  unfolding run_deployment conclude
  run_deployment-IsTerminal d s r v h c b changes =
      let s1 = (claim reached d now s).1 in
      let table = claim-table reached d now s true c in
      let started : Started d.id s1.deployments =
        subst (λ t. Started d.id t) (sym table)
          (
            attempt in_progress now r,
            (transition_exact d.id in_progress now s.deployments r v.unique h).1,
            attempt-HasStarted now r,
          ) in
      let (v2, (d2, h2, k2)) =
        Changes-Started d.id (changes s1)
          (subst IsValid (sym table) (Step-IsValid (move d.id in_progress now) v)) started in
      rw (run_deployment, c)
        (conclude-ended payload reached locked limit later d (steps s1).0 (steps s1).1 d2 b v2 h2
          k2)
