-- ===== src/Db/Deployments/History.antt =====
-- Every history of the table: what the operations may do to a row, in any order and number.
use rustify.Prelude.Int.{ℤ}
use rustify.Prelude.{
  ℕ, ◌+◌, ◌<◌, ◌≡◌, refl, sym, subst, inl, inr, Bool, true, Option, none, List, [], ◌∷◌, Str, arith,
  Option-cases, is_some, All, All-append, In,
}
use rustify.Core.Status.{DeploymentStatus, queued, in_progress, is_terminal, can_transition_to}
use rustify.Db.Deployments.{
  Deployment, NewDeployment, Table, create_queued, selects, moved_to, transition, is_active_for,
  cancel, cancel_active_for_pr, started, next_queuable,
}
use rustify.Db.Deployments.{deployment_keyed}
use rustify.Prelude.Keyed.{
  update_where, eq_of_key, All-update, Unique, Unique-update, Unique-append,
}
use rustify.Db.Deployments.Legality.{is_any-legal_predecessors}
use rustify.Db.Deployments.Admission.{next_queuable-Admission, next_queuable_idle}

-- The time stamps agree with the status.
pub record IsConsistent (d : Deployment) : Type 0 where
  pub ended : is_some d.finished_at ≡ is_terminal d.status
  pub waiting : d.status ≡ queued → d.started_at ≡ none
  pub running : d.status ≡ in_progress → is_some d.started_at ≡ true

pub record IsValid (t : Table) : Type 0 where
  pub unique : Unique t.rows
  pub below : All (λ d. d.id < t.next_id) t.rows
  pub consistent : All IsConsistent t.rows

-- One committed operation, at the time `now`.
pub data Step (t : Table) : Table → Type 0 where
  create : (new : NewDeployment) (uuid : Str) (now : ℕ) → Step t (create_queued new uuid now t).1
  move : (id : ℕ) (next : DeploymentStatus) (now : ℕ) → Step t (transition id next now t).1
  close_pr : (app : ℕ) (pr : ℤ) (now : ℕ) → Step t (cancel_active_for_pr app pr now t).1
  admit :
      (locked : ℕ → Bool) (server : ℕ) (limit : Option ℕ) (now : ℕ)
      → Step t (next_queuable locked server limit now t).1

pub data Reach (s : Table) : Table → Type 0 where
  here : Reach s s
  next : {t u : Table} → Reach s t → Step t u → Reach s u

moved_to-id : (s : DeploymentStatus) (now : ℕ) (d : Deployment) → (moved_to s now d).id ≡ d.id
unfolding moved_to
moved_to-id s now d = refl

pub cancel-id : (now : ℕ) (d : Deployment) → (cancel now d).id ≡ d.id
unfolding cancel
cancel-id now d = refl

pub started-id : (now : ℕ) (d : Deployment) → (started now d).id ≡ d.id
unfolding started
started-id now d = refl

moved_to-IsConsistent :
    (id : ℕ) (s : DeploymentStatus) (now : ℕ) (d : Deployment)
    → selects id s d ≡ true
    → IsConsistent d
    → IsConsistent (moved_to s now d)
unfolding moved_to can_transition_to
moved_to-IsConsistent id s now d h c = ground (arith, is_any-legal_predecessors d.status s)

cancel-IsConsistent :
    (app : ℕ) (pr : ℤ) (now : ℕ) (d : Deployment)
    → is_active_for app pr d ≡ true
    → IsConsistent d
    → IsConsistent (cancel now d)
unfolding cancel is_terminal
cancel-IsConsistent app pr now d h c = ground arith

started-IsConsistent :
    (now : ℕ) (d : Deployment) → d.status ≡ queued → IsConsistent d → IsConsistent (started now d)
unfolding started is_terminal
started-IsConsistent now d h c = ground arith

-- An UPDATE that keeps the keys and the agreement of the rows it selects keeps the table valid.
pub update-IsValid :
    (p : Deployment → Bool) (f : Deployment → Deployment) (t : Table)
    → ((d : Deployment) → (f d).id ≡ d.id)
    → ((d : Deployment) → In d t.rows → p d ≡ true → IsConsistent d → IsConsistent (f d))
    → IsValid t
    → IsValid (record t { rows = update_where p f t.rows })
update-IsValid p f t keeps ok v = record {
  unique = Unique-update p f keeps t.rows v.unique;
  below = All-update p f keeps (λ d. d.id < t.next_id) t.rows (λ d _ _ b. rw keeps b) v.below;
  consistent = All-update p f keeps IsConsistent t.rows ok v.consistent;
}

All-below_suc :
    (n : ℕ) (rows : List Deployment) → All (λ d. d.id < n) rows → All (λ d. d.id < n + 1) rows
All-below_suc n [] h = tt
All-below_suc n (d ∷ ds) h = (omega arith, All-below_suc n ds h.1)

create-IsValid :
    (new : NewDeployment) (uuid : Str) (now : ℕ) (t : Table)
    → IsValid t
    → IsValid (create_queued new uuid now t).1
unfolding create_queued is_terminal
create-IsValid new uuid now t v = record {
  unique = Unique-append t.rows _ v.unique v.below;
  below =
      All-append (λ d. d.id < t.next_id + 1) t.rows _ (All-below_suc t.next_id t.rows v.below)
        (omega arith, tt);
  consistent = All-append IsConsistent t.rows _ v.consistent (ground arith, tt);
}

admit-IsValid :
    (locked : ℕ → Bool) (server : ℕ) (limit : Option ℕ) (now : ℕ) (t : Table)
    → IsValid t
    → IsValid (next_queuable locked server limit now t).1
admit-IsValid locked server limit now t v =
    elim (Option-cases (next_queuable locked server limit now t).0) [
      | inl idle ↦ rw (next_queuable_idle locked server limit now t idle).1 v
      | inr (r, h) ↦
          let (d, a) = next_queuable-Admission locked server limit now t r h in
          rw a.after (
            update-IsValid _ _ t (started-id now)
              (λ x i k c.
                started-IsConsistent now x
                  (subst (λ (y : Deployment). y.status ≡ queued)
                    (sym (eq_of_key t.rows x d v.unique i a.before (ground arith)))
                    a.admits.waiting)
                  c)
              v)
    ]

-- Every operation keeps the table valid.
pub Step-IsValid : {t u : Table} → Step t u → IsValid t → IsValid u
unfolding transition cancel_active_for_pr
Step-IsValid {t = t} (create new uuid now) v = create-IsValid new uuid now t v
Step-IsValid {t = t} (move id s now) v =
    update-IsValid _ _ t (moved_to-id s now) (λ d _. moved_to-IsConsistent id s now d) v
Step-IsValid {t = t} (close_pr app pr now) v =
    update-IsValid _ _ t (cancel-id now) (λ d _. cancel-IsConsistent app pr now d) v
Step-IsValid {t = t} (admit locked server limit now) v = admit-IsValid locked server limit now t v
