-- ===== src/Db/Deployments/Legality.antt =====
-- The SQL of `transition` is the state machine: it moves a row exactly when `can_transition_to` allows.
use rustify.Prelude.{
  ℕ, ◌≡◌, ◌≢◌, refl, inl, inr, ◌∙◌, false, none, some, arith, if◌then◌else◌, map_option,
  Option-cases,
}
use rustify.Core.Status.{
  DeploymentStatus, queued, in_progress, finished, failed, cancelled, status_eq, can_transition_to,
}
use rustify.Db.Deployments.{
  Deployment, Table, legal_predecessors, is_any, selects, moved_to, transition,
}
use rustify.Db.Deployments.{deployment_keyed}
use rustify.Prelude.Keyed.{row, row-update, row-id, count-keyed, Unique}

-- `legal_predecessors` is the inverse image of `can_transition_to`.
pub is_any-legal_predecessors :
    (s next : DeploymentStatus) → is_any s (legal_predecessors next) ≡ can_transition_to s next
unfolding legal_predecessors can_transition_to status_eq
is_any-legal_predecessors queued next = ground arith
is_any-legal_predecessors in_progress next = ground arith
is_any-legal_predecessors finished next = ground arith
is_any-legal_predecessors failed next = ground arith
is_any-legal_predecessors cancelled next = ground arith

-- What a move leaves of a row, if it is legal there.
abbrev pub attempt : DeploymentStatus → ℕ → Deployment → Deployment
attempt next now d = if can_transition_to d.status next then moved_to next now d else d

moved_to-id : (next : DeploymentStatus) (now : ℕ) (d : Deployment) → (moved_to next now d).id ≡ d.id
unfolding moved_to
moved_to-id next now d = refl

row-transition :
    (id j : ℕ) (next : DeploymentStatus) (now : ℕ) (t : Table)
    → row j (transition id next now t).1.rows
      ≡ map_option (λ d. if selects id next d then moved_to next now d else d) (row j t.rows)
unfolding transition
row-transition id j next now t = row-update _ _ (moved_to-id next now) j t.rows

pub row-transition_self :
    (id : ℕ) (next : DeploymentStatus) (now : ℕ) (t : Table) (d : Deployment)
    → row id t.rows ≡ some d
    → row id (transition id next now t).1.rows ≡ some (attempt next now d)
row-transition_self id next now t d h =
    row-transition id id next now t
    ∙ rw h (ground (arith, row-id id t.rows d, is_any-legal_predecessors d.status next))

pub row-transition_ne :
    (id j : ℕ) (next : DeploymentStatus) (now : ℕ) (t : Table)
    → j ≢ id
    → row j (transition id next now t).1.rows ≡ row j t.rows
row-transition_ne id j next now t h = elim (Option-cases (row j t.rows)) [
  | inl e ↦ row-transition id j next now t ∙ rw e refl
  | inr (d, e) ↦ row-transition id j next now t ∙ rw e (ground (arith, row-id j t.rows d))
]

-- The flag that `transition` returns.
pub transition-flag :
    (id : ℕ) (next : DeploymentStatus) (now : ℕ) (t : Table)
    → Unique t.rows
    → (transition id next now t).0
      ≡ elim (row id t.rows) [ none ↦ false | some d ↦ can_transition_to d.status next ]
unfolding transition
transition-flag id next now t u = elim (Option-cases (row id t.rows)) [
  | inl e ↦
      rw e
        (ground (arith, count-keyed (λ d. is_any d.status (legal_predecessors next)) id t.rows u))
  | inr (d, e) ↦ rw e (
      ground (
        arith,
        count-keyed (λ d. is_any d.status (legal_predecessors next)) id t.rows u,
        is_any-legal_predecessors d.status next,
      ))
]

-- For a row with key `id`, `transition` returns the answer of `can_transition_to`; the row then
-- holds the new status if the answer is true and is unchanged if not; every other row is unchanged.
pub transition_exact :
    (id : ℕ) (next : DeploymentStatus) (now : ℕ) (t : Table) (d : Deployment)
    → Unique t.rows
    → row id t.rows ≡ some d
    → ((transition id next now t).0 ≡ can_transition_to d.status next)
      × (row id (transition id next now t).1.rows ≡ some (attempt next now d))
      × ((j : ℕ) → j ≢ id → row j (transition id next now t).1.rows ≡ row j t.rows)
transition_exact id next now t d u h = (
  transition-flag id next now t u ∙ rw h refl,
  row-transition_self id next now t d h,
  λ j ne. row-transition_ne id j next now t ne,
)
