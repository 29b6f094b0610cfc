-- ===== src/Deploy/Engine/Changes.antt =====
-- What other tasks and the engine's own steps do to the table of deployments during a run.
use rustify.Prelude.{
  ℕ, true, ◌||◌, some, Str, ◌≡◌, refl, ◌∙◌, inl, inr, arith, ◌==◌, if◌then◌else◌, Bool-cases,
}
use rustify.Prelude.Keyed.{row, row-update, update_where}
use rustify.Core.Status.{in_progress, status_eq, is_terminal}
use rustify.Db.Deployments.{Deployment, Table, deployment_keyed}
use rustify.Db.Deployments.History.{IsValid, IsConsistent, Step, here, next, update-IsValid}
use rustify.Db.Deployments.Frozen.{IsLater, Reach-IsLater}
use rustify.Deploy.Engine.{set_commit_sha, set_commit_message}

-- One statement: an operation of the repository, or a commit written by an engine.
pub data Change (t : Table) : Table → Type 0 where
  operates : {u : Table} → Step t u → Change t u
  sets_sha : (id : ℕ) (sha : Str) → Change t (set_commit_sha id sha t)
  sets_message : (id : ℕ) (message : Str) → Change t (set_commit_message id message t)

pub data Changes (s : Table) : Table → Type 0 where
  unchanged : Changes s s
  then_by : {t u : Table} → Changes s t → Change t u → Changes s u

-- Past the queue.
abbrev pub HasStarted : Deployment → Type 0
HasStarted d = (is_terminal d.status || status_eq d.status in_progress) ≡ true

abbrev pub Started : ℕ → Table → Type 0
Started id t = (e : Deployment) × (row id t.rows ≡ some e) × HasStarted e

later-HasStarted : (d e : Deployment) → IsLater d e → HasStarted d → HasStarted e
unfolding is_terminal status_eq
later-HasStarted d e l h = ground (arith, l.status)

-- An UPDATE of the row with a key that keeps its key, its status and its times.
module _ (f : Deployment → Deployment) (keeps : (d : Deployment) → (f d).id ≡ d.id)
    (same : (d : Deployment) → (f d).status ≡ d.status)
    (ok : (d : Deployment) → IsConsistent d → IsConsistent (f d)) where
  written-Started :
      (k id : ℕ) (t u : Table)
      → u ≡ record t { rows = update_where (λ d. d.id == k) f t.rows }
      → IsValid t
      → Started id t
      → IsValid u × Started id u
  written-Started k id t u q v (d, h, s) =
      let g = λ (e : Deployment). if e.id == k then f e else e in
      (
        rw q (update-IsValid (λ e. e.id == k) f t keeps (λ e _ _ c. ok e c) v),
        (
          g d,
          rw q (row-update _ _ keeps id t.rows ∙ rw h refl),
          elim (Bool-cases (d.id == k)) [ inl e ↦ rw (e, same d) s | inr e ↦ rw e s ],
        ),
      )

Change-Started :
    {t u : Table} (id : ℕ) → Change t u → IsValid t → Started id t → IsValid u × Started id u
unfolding set_commit_sha set_commit_message
Change-Started {t = t} id (operates st) v (d, h, s) =
    let (w, (e, k, l)) = Reach-IsLater id d v h (next here st) in
    (w, (e, k, later-HasStarted d e l s))
Change-Started {t = t} id (sets_sha k sha) v s =
    written-Started (λ d. record d { commit_sha = some sha }) (λ d. refl) (λ d. refl)
      (λ d c. record { ended = c.ended; waiting = c.waiting; running = c.running }) k id t _ refl v
      s
Change-Started {t = t} id (sets_message k message) v s =
    written-Started (λ d. record d { commit_message = some message }) (λ d. refl) (λ d. refl)
      (λ d c. record { ended = c.ended; waiting = c.waiting; running = c.running }) k id t _ refl v
      s

-- A row that has started is there, and has started, after any changes.
pub Changes-Started :
    {s t : Table} (id : ℕ) → Changes s t → IsValid s → Started id s → IsValid t × Started id t
Changes-Started id unchanged v h = (v, h)
Changes-Started id (then_by cs c) v h =
    let (w, k) = Changes-Started id cs v h in Change-Started id c w k
