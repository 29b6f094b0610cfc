-- ===== src/Db/Deployments/Admission.antt =====
-- `next_queuable`: whom it admits, and the caps that it keeps.
use rustify.Prelude.{
  ℕ, ◌+◌, ◌≤◌, ◌<◌, ◌≡◌, ◌≢◌, ◌↔◌, refl, inl, inr, Bool, true, false, Option, none, some, List, [],
  ◌∷◌, arith, ◌==◌, filter, count_if, count_if-any, any, unwrap_or, Option-cases, In, In-filter,
  filter-In,
}
use rustify.Core.Status.{DeploymentStatus, queued, in_progress, status_eq, status_eq_sound}
use rustify.Db.Deployments.{
  Deployment, Table, in_flight_for_app, in_flight_on, is_admissible, older, oldest, started,
  claim_row, next_queuable,
}
use rustify.Db.Deployments.{deployment_keyed}
use rustify.Prelude.Keyed.{update_where, count-update, Unique}

oldest-In : (xs : List Deployment) (d : Deployment) → oldest xs ≡ some d → In d xs
unfolding oldest
oldest-In [] d h = cc
oldest-In (x ∷ xs) d h = elim (Option-cases (oldest xs)) [
  | inl e ↦ ground arith
  | inr (y, e) ↦ ground (arith, oldest-In xs y)
]

oldest-ne-none : (x : Deployment) (xs : List Deployment) → oldest (x ∷ xs) ≢ none
unfolding oldest
oldest-ne-none x xs h = ground arith

negative_trans : (a b c : Deployment) → older a b ≡ false → older b c ≡ false → older a c ≡ false
negative_trans a b c h k = ground arith

older_asym : (a b : Deployment) → older a b ≡ true → older b a ≡ false
older_asym a b h = ground arith

older_irrefl : (a : Deployment) → older a a ≡ false
older_irrefl a = ground arith

oldest-In-none : (xs : List Deployment) (e : Deployment) → oldest xs ≡ none → In e xs → ⊥
oldest-In-none [] e h m = m
oldest-In-none (x ∷ xs) e h m = oldest-ne-none x xs h

-- ORDER BY … LIMIT 1 takes a row that no other precedes.
oldest_least :
    (xs : List Deployment) (d e : Deployment) → oldest xs ≡ some d → In e xs → older e d ≡ false
unfolding oldest
oldest_least [] d e h m = absurd m
oldest_least (x ∷ xs) d e h m = elim (Option-cases (oldest xs)) [
  | inl none_left ↦ elim m [
    | inl p ↦ ground (arith, older_irrefl d)
    | inr m' ↦ absurd (oldest-In-none xs e none_left m')
  ]
  | inr (y, top) ↦ elim m [
    | inl p ↦ ground (arith, older_irrefl d, older_asym y x)
    | inr m' ↦ ground (arith, oldest_least xs y e top m', negative_trans e y x)
  ]
]

-- The admission test as facts.
pub record Admits (locked : ℕ → Bool) (server : ℕ) (limit : Option ℕ) (rows : List Deployment)
    (d : Deployment) : Type 0 where
  pub on_server : d.server_id ≡ server
  pub waiting : d.status ≡ queued
  pub app_idle : any (in_flight_for_app d.application_id) rows ≡ false
  pub room : count_if (in_flight_on server) rows < unwrap_or limit 2
  pub free : locked d.id ≡ false

admissible_iff :
    (locked : ℕ → Bool) (server : ℕ) (limit : Option ℕ) (rows : List Deployment) (d : Deployment)
    → (is_admissible locked server limit rows d ≡ true) ↔ Admits locked server limit rows d
unfolding is_admissible
admissible_iff locked server limit rows d = (
  λ h. record {
    on_server = ground arith;
    waiting = status_eq_sound d.status queued (ground arith);
    app_idle = ground arith;
    room = ground arith;
    free = ground arith;
  },
  λ a. ground arith,
)

-- What an admission says of the row that comes back.
pub record Admission (locked : ℕ → Bool) (server : ℕ) (limit : Option ℕ) (now : ℕ) (t : Table)
    (d : Deployment) : Type 0 where
  pub before : In d t.rows
  pub admits : Admits locked server limit t.rows d
  pub first :
      (e : Deployment) → In e t.rows → Admits locked server limit t.rows e → older e d ≡ false
  pub after : next_queuable locked server limit now t ≡ (
    some (started now d),
    record t { rows = update_where (λ e. e.id == d.id) (started now) t.rows },
  )

claim_row-some :
    (now : ℕ) (o : Option Deployment) (t : Table) (r : Deployment)
    → (claim_row now o t).0 ≡ some r
    → (d : Deployment) × (o ≡ some d)
unfolding claim_row
claim_row-some now none t r h = cc
claim_row-some now (some d) t r h = (d, refl)

-- A deployment is admitted: it is the oldest of those that the server may start, and the only
-- change is that its row starts.
pub next_queuable-Admission :
    (locked : ℕ → Bool) (server : ℕ) (limit : Option ℕ) (now : ℕ) (t : Table) (r : Deployment)
    → (next_queuable locked server limit now t).0 ≡ some r
    → (d : Deployment) × Admission locked server limit now t d
next_queuable-Admission locked server limit now t r h =
    let candidates = filter (is_admissible locked server limit t.rows) t.rows in
    let (d, e) = claim_row-some now (oldest candidates) t r (unfold next_queuable in h) in
    let m = In-filter _ d t.rows (oldest-In candidates d e) in
    (
      d,
      record {
        before = m.0;
        admits = (admissible_iff locked server limit t.rows d).0 m.1;
        first = λ x i a.
            oldest_least candidates d x e
              (filter-In _ x t.rows i ((admissible_iff locked server limit t.rows x).1 a));
        after = unfold next_queuable claim_row in rw e refl;
      },
    )

-- At most one deployment of an application is in flight.
abbrev pub AppCap : List Deployment → Type 0
AppCap rows = (app : ℕ) → count_if (in_flight_for_app app) rows ≤ 1

started_for_app :
    (app now : ℕ) (d : Deployment)
    → in_flight_for_app app (started now d) ≡ (d.application_id == app)
unfolding started status_eq
started_for_app app now d = ground arith

started_on :
    (server now : ℕ) (d : Deployment)
    → in_flight_on server (started now d) ≡ (d.server_id == server)
unfolding started status_eq
started_on server now d = ground arith

queued_not_in_flight : (s : DeploymentStatus) → s ≡ queued → status_eq s in_progress ≡ false
unfolding status_eq
queued_not_in_flight s h = ground arith

-- If the keys are unique and no application has two deployments in flight, an admission keeps it
-- so; it adds one to the count in flight of its server, within the limit (2 by default), and
-- leaves the count of every other server.
pub next_queuable-AppCap :
    (locked : ℕ → Bool) (server : ℕ) (limit : Option ℕ) (now : ℕ) (t : Table) (r : Deployment)
    → Unique t.rows
    → AppCap t.rows
    → (next_queuable locked server limit now t).0 ≡ some r
    → let rows' = (next_queuable locked server limit now t).1.rows in
      AppCap rows'
      × (count_if (in_flight_on server) rows' ≡ count_if (in_flight_on server) t.rows + 1)
      × (count_if (in_flight_on server) rows' ≤ unwrap_or limit 2)
      × ((s : ℕ) → s ≢ server → count_if (in_flight_on s) rows' ≡ count_if (in_flight_on s) t.rows)
next_queuable-AppCap locked server limit now t r u cap h =
    let (d, a) = next_queuable-Admission locked server limit now t r h in
    let idle = queued_not_in_flight d.status a.admits.waiting in
    let grows = λ (q : Deployment → Bool). count-update q (started now) d t.rows u a.before in
    rw a.after (
      (λ app. ground (
        arith,
        cap app,
        grows (in_flight_for_app app),
        started_for_app app now d,
        count_if-any (in_flight_for_app d.application_id) t.rows a.admits.app_idle,
      )),
      ground (arith, grows (in_flight_on server), started_on server now d, a.admits),
      ground (arith, grows (in_flight_on server), started_on server now d, a.admits),
      (λ s ne. ground (arith, grows (in_flight_on s), started_on s now d, a.admits)),
    )

claim_row-none :
    (now : ℕ) (o : Option Deployment) (t : Table)
    → (claim_row now o t).0 ≡ none
    → (o ≡ none) × ((claim_row now o t).1 ≡ t)
unfolding claim_row
claim_row-none now none t h = (refl, refl)
claim_row-none now (some d) t h = cc

-- Nothing is admitted only if no row may start, and then nothing changes.
pub next_queuable_idle :
    (locked : ℕ → Bool) (server : ℕ) (limit : Option ℕ) (now : ℕ) (t : Table)
    → (next_queuable locked server limit now t).0 ≡ none
    → ((e : Deployment) → In e t.rows → ¬ (Admits locked server limit t.rows e))
      × ((next_queuable locked server limit now t).1 ≡ t)
unfolding next_queuable
next_queuable_idle locked server limit now t h =
    let candidates = filter (is_admissible locked server limit t.rows) t.rows in
    let (e, same) = claim_row-none now (oldest candidates) t h in
    (
      λ x i a.
          oldest-In-none candidates x e
            (filter-In _ x t.rows i ((admissible_iff locked server limit t.rows x).1 a)),
      same,
    )
