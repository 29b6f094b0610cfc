-- ===== src/Db/Deployments/Frozen.antt =====
-- A row through every history of the table: it goes forward through the states, and a terminal
-- row never changes again.
use rustify.Prelude.Int.{ℤ}
use rustify.Prelude.{
  ℕ, ◌≡◌, refl, sym, subst, inl, inr, ◌∙◌, Bool, true, ◌&&◌, ◌||◌, Option, some, arith, ◌==◌,
  if◌then◌else◌, Bool-cases, Option-cases,
}
use rustify.Core.Status.{
  DeploymentStatus, queued, in_progress, status_eq, is_terminal, can_transition_to,
}
use rustify.Db.Deployments.{
  Deployment, Table, create_queued, moved_to, transition, is_active_for, cancel,
  cancel_active_for_pr, started, next_queuable,
}
use rustify.Db.Deployments.{deployment_keyed}
use rustify.Prelude.Keyed.{eq_of_key, row, row-update, row-In, row-append}
use rustify.Db.Deployments.Legality.{attempt, row-transition_self, row-transition_ne}
use rustify.Db.Deployments.Admission.{next_queuable-Admission, next_queuable_idle}
use rustify.Db.Deployments.History.{
  IsValid, Step, create, move, close_pr, admit, Reach, here, next, Step-IsValid, cancel-id,
  started-id,
}

-- The statuses that can follow one another, in any number of legal steps.
abbrev pub advances : DeploymentStatus → DeploymentStatus → Bool
advances a b = status_eq a b || status_eq a queued || (status_eq a in_progress && is_terminal b)

-- `e` is what `d` may have become.
pub record IsLater (d e : Deployment) : Type 0 where
  pub uuid : e.uuid ≡ d.uuid
  pub application : e.application_id ≡ d.application_id
  pub server : e.server_id ≡ d.server_id
  pub created : e.created_at ≡ d.created_at
  pub status : advances d.status e.status ≡ true
  pub frozen : is_terminal d.status ≡ true → e ≡ d

IsLater-refl : (d : Deployment) → IsLater d d
unfolding status_eq
IsLater-refl d = ground arith

IsLater-trans : (d e f : Deployment) → IsLater d e → IsLater e f → IsLater d f
unfolding status_eq is_terminal
IsLater-trans d e f a b = record {
  uuid = b.uuid ∙ a.uuid;
  application = b.application ∙ a.application;
  server = b.server ∙ a.server;
  created = b.created ∙ a.created;
  status = ground (arith, a.status, b.status);
  frozen = λ h. ground (arith, a.frozen h, b.frozen);
}

attempt-IsLater : (s : DeploymentStatus) (now : ℕ) (d : Deployment) → IsLater d (attempt s now d)
unfolding moved_to can_transition_to
attempt-IsLater s now d = ground arith

cancel-IsLater :
    (app : ℕ) (pr : ℤ) (now : ℕ) (d : Deployment)
    → IsLater d (if is_active_for app pr d then cancel now d else d)
unfolding cancel status_eq is_terminal
cancel-IsLater app pr now d = ground arith

started-IsLater : (now : ℕ) (d : Deployment) → d.status ≡ queued → IsLater d (started now d)
unfolding started status_eq is_terminal
started-IsLater now d h = ground arith

abbrev Later : ℕ → Deployment → Table → Type 0
Later id d t = (e : Deployment) × (row id t.rows ≡ some e) × IsLater d e

Later-admit :
    (locked : ℕ → Bool) (server : ℕ) (limit : Option ℕ) (now : ℕ) (t : Table) (id : ℕ)
    (d : Deployment)
    → IsValid t
    → row id t.rows ≡ some d
    → Later id d (next_queuable locked server limit now t).1
Later-admit locked server limit now t id d v h =
    elim (Option-cases (next_queuable locked server limit now t).0) [
      | inl idle ↦ rw (next_queuable_idle locked server limit now t idle).1 (d, h, IsLater-refl d)
      | inr (r, q) ↦
          let (c, a) = next_queuable-Admission locked server limit now t r q in
          let f = λ (x : Deployment). if x.id == c.id then started now x else x in
          rw a.after (
            f d,
            row-update _ _ (started-id now) id t.rows ∙ rw h refl,
            elim (Bool-cases (d.id == c.id)) [
              | inl e ↦ rw e (
                  started-IsLater now d (
                    subst (λ (y : Deployment). y.status ≡ queued)
                      (sym (
                        eq_of_key t.rows d c v.unique (row-In id t.rows d h) a.before
                          (ground arith)))
                      a.admits.waiting))
              | inr e ↦ rw e (IsLater-refl d)
            ],
          )
    ]

Later-Step :
    {t u : Table}
    → Step t u
    → (id : ℕ) (d : Deployment) → IsValid t
    → row id t.rows ≡ some d
    → Later id d u
Later-Step {t = t} (create new uuid now) id d v h =
    unfold create_queued in (d, row-append id t.rows _ d h, IsLater-refl d)
Later-Step {t = t} (move k s now) id d v h = elim (Bool-cases (id == k)) [
  | inl e ↦ (
    attempt s now d,
    subst (λ (j : ℕ). row id (transition j s now t).1.rows ≡ some (attempt s now d)) {x = id}
        {y = k} (ground arith) (row-transition_self id s now t d h),
    attempt-IsLater s now d,
  )
  | inr e ↦ (d, row-transition_ne k id s now t (ground arith) ∙ h, IsLater-refl d)
]
Later-Step {t = t} (close_pr app pr now) id d v h = (
  if is_active_for app pr d then cancel now d else d,
  unfold cancel_active_for_pr in row-update _ _ (cancel-id now) id t.rows ∙ rw h refl,
  cancel-IsLater app pr now d,
)
Later-Step {t = t} (admit locked server limit now) id d v h =
    Later-admit locked server limit now t id d v h

Reach-IsValid : {s t : Table} → Reach s t → IsValid s → IsValid t
Reach-IsValid here v = v
Reach-IsValid (next r st) v = Step-IsValid st (Reach-IsValid r v)

-- From a valid table, after any history of creations, transitions, cancellations and admissions,
-- the table is valid and a row still has its key, its application, server, uuid and creation time;
-- its status has only gone forward; and if it was terminal, the whole row is unchanged.
pub Reach-IsLater :
    {s t : Table}
    → (id : ℕ) (d : Deployment) → IsValid s
    → row id s.rows ≡ some d
    → Reach s t
    → IsValid t × ((e : Deployment) × (row id t.rows ≡ some e) × IsLater d e)
Reach-IsLater id d v h here = (v, (d, h, IsLater-refl d))
Reach-IsLater id d v h (next r st) =
    let (v', (e, k, l)) = Reach-IsLater id d v h r in
    let (f, m, n) = Later-Step st id e v' k in (Step-IsValid st v', (f, m, IsLater-trans d e f l n))
