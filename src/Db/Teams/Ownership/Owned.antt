-- ===== src/Db/Teams/Ownership/Owned.antt =====
-- After a role change or a removal a team has an owner or nobody, and the rest keep their rows.
use rustify.Prelude.{
  ℕ, Bool, true, false, not, ◌&&◌, ◌||◌, none, some, List, [], ◌∷◌, str_eq_self, ◌==◌, leb, filter,
  count_if, any, find, codes, ◌≡◌, ◌≢◌, ◌⊎◌, inl, inr, refl, arith, subst, sym, ◌∙◌, Bool-cases,
  ==_iff, Option-cases, In, In-filter,
}
use rustify.Prelude.Keyed.{update_where, Unique, eq_of_key, Unique-update, Unique-filter}
use rustify.Core.Role.{Role}
use rustify.Db.Teams.{
  membership_keyed, Membership, Store, DbResult, ok, err, ◌>>=◌, in_team, is_row, owns,
  root_team_id, delete_team_row,
}
use rustify.Db.Teams.Ownership.{
  lowest, repoint, promote_earliest, reconcile_ownership, write_role, set_role, delete_row,
  remove_member, demotes_sole_owner,
}

-- A team with members has an owner.
abbrev pub IsOwned : ℕ → List Membership → Type 0
IsOwned team ms = (any (owns team) ms ≡ true) ⊎ (any (in_team team) ms ≡ false)

-- The rows of the other teams.
unfoldable pub others : ℕ → List Membership → List Membership
others team = filter (λ m. not (in_team team m))

pub lowest-In : {A : Type 0} (f : A → ℕ) (xs : List A) (x : A) → lowest f xs ≡ some x → In x xs
unfolding lowest
lowest-In f [] x h = cc
lowest-In f (y ∷ ys) x h = elim (Option-cases (lowest f ys)) [
  | inl e ↦ ground (arith, e)
  | inr (z, e) ↦ ground (arith, e, lowest-In f ys z e)
]

pub lowest-none : {A : Type 0} (f : A → ℕ) (xs : List A) → lowest f xs ≡ none → xs ≡ []
unfolding lowest
lowest-none f [] h = refl
lowest-none f (y ∷ ys) h = elim (Option-cases (lowest f ys)) [
  | inl e ↦ ground (arith, e)
  | inr (z, e) ↦ ground (arith, e)
]

filter-any : {A : Type 0} (p : A → Bool) (xs : List A) → filter p xs ≡ [] → any p xs ≡ false
filter-any p [] h = refl
filter-any p (x ∷ xs) h = ground (arith, filter-any p xs)

count_if-none : {A : Type 0} (p : A → Bool) (xs : List A) → count_if p xs ≡ 0 → any p xs ≡ false
count_if-none p [] h = refl
count_if-none p (x ∷ xs) h = ground (arith, count_if-none p xs)

count_if-some : {A : Type 0} (p : A → Bool) (xs : List A) → count_if p xs ≢ 0 → any p xs ≡ true
count_if-some p [] h = ground arith
count_if-some p (x ∷ xs) h = ground (arith, count_if-some p xs)

==_self : (n : ℕ) → (n == n) ≡ true
==_self n = ground arith

promoted-owns :
    (team : ℕ) (e : Membership) (ms : List Membership)
    → In e ms
    → in_team team e ≡ true
    → any (owns team) (update_where (λ m. m.id == e.id) (λ m. record m { role = codes "owner" }) ms)
      ≡ true
promoted-owns team e [] i t = absurd i
promoted-owns team e (m ∷ ms) (inl p) t =
    subst
      (λ (y : Membership).
        any (owns team)
          (update_where (λ m. m.id == e.id) (λ m. record m { role = codes "owner" }) (y ∷ ms))
        ≡ true)
      (sym p) (rw (==_self e.id, t, str_eq_self (codes "owner")) refl)
promoted-owns team e (m ∷ ms) (inr i) t = ground (arith, promoted-owns team e ms i t)

others-update :
    (team : ℕ) (p : Membership → Bool) (f : Membership → Membership) (ms : List Membership)
    → ((m : Membership) → In m ms → p m ≡ true → in_team team m ≡ true)
    → ((m : Membership) → (f m).team_id ≡ m.team_id)
    → others team (update_where p f ms) ≡ others team ms
unfolding others
others-update team p f [] h k = refl
others-update team p f (m ∷ ms) h k = elim (Bool-cases (p m)) [
  | inl e ↦ rw (e, k m, h m (inl refl) e) (others-update team p f ms (λ x i. h x (inr i)) k)
  | inr e ↦ rw (e, others-update team p f ms (λ x i. h x (inr i)) k) refl
]

-- Writing the row `e` of the team leaves the rows of the other teams.
others-write :
    (team : ℕ) (e : Membership) (ms : List Membership)
    → Unique ms
    → In e ms
    → in_team team e ≡ true
    → others team (update_where (λ m. m.id == e.id) (λ m. record m { role = codes "owner" }) ms)
      ≡ others team ms
others-write team e ms u i t =
    others-update team (λ m. m.id == e.id) (λ m. record m { role = codes "owner" }) ms
      (λ m j q.
        subst (λ x. in_team team x ≡ true) (sym (eq_of_key ms m e u j i ((==_iff m.id e.id).0 q)))
          t)
      (λ m. refl)

others-filter :
    (team : ℕ) (p : Membership → Bool) (ms : List Membership)
    → ((m : Membership) → p m ≡ false → in_team team m ≡ true)
    → others team (filter p ms) ≡ others team ms
unfolding others
others-filter team p [] h = refl
others-filter team p (m ∷ ms) h = ground (arith, others-filter team p ms h, h m)

any-others : (team : ℕ) (ms : List Membership) → any (in_team team) (others team ms) ≡ false
unfolding others
any-others team [] = refl
any-others team (m ∷ ms) = ground (arith, any-others team ms)

-- What an ownership check promises of the rows before and after it.
abbrev pub Settled : ℕ → List Membership → List Membership → Type 0
Settled team ms ms' = IsOwned team ms' × (others team ms' ≡ others team ms)

promote_earliest-Settled :
    (team : ℕ) (ms : List Membership) → Unique ms → Settled team ms (promote_earliest team ms)
unfolding promote_earliest others
promote_earliest-Settled team ms u =
    elim (Option-cases (lowest (λ m. m.id) (filter (in_team team) ms))) [
      | inl e ↦
          rw (promote_earliest, e)
            (
              inr (
                  filter-any (in_team team) ms
                    (lowest-none (λ m. m.id) (filter (in_team team) ms) e)),
              refl,
            )
      | inr (m, e) ↦
          let i =
            In-filter (in_team team) m ms (lowest-In (λ m. m.id) (filter (in_team team) ms) m e) in
          rw (promote_earliest, e)
            (inl (promoted-owns team m ms i.0 i.1), others-write team m ms u i.0 i.1)
    ]

-- The store that a statement commits is as `P` says.
abbrev pub Commits : {A : Type 0} → (A → Store → Type 0) → DbResult A → Type 0
Commits P (ok a s) = P a s
Commits P (err e) = Unit

pub reconcile_ownership-Settled :
    (team : ℕ) (s : Store)
    → Unique s.members
    → Commits (λ _ s'. Settled team s.members s'.members) (reconcile_ownership team s)
unfolding reconcile_ownership others
reconcile_ownership-Settled team s u = elim (Bool-cases (count_if (in_team team) s.members == 0)) [
  | inl e ↦
      let none_left =
        count_if-none (in_team team) s.members
          ((==_iff (count_if (in_team team) s.members) 0).0 e) in
      elim (Bool-cases (team == root_team_id)) [
        | inl r ↦ rw (e, r) (inr none_left, refl)
        | inr r ↦
            elim (Bool-cases
              (any (λ u. u.team_id == team) (repoint team s).users || s.referenced team)) [
                | inl f ↦ rw (delete_team_row, e, r, f) tt
                | inr f ↦
                    rw (delete_team_row, e, r, f)
                      (
                        inr (any-others team s.members),
                        others-filter team (λ m. not (in_team team m)) s.members
                            (λ m q. ground arith),
                      )
              ]
      ]
  | inr e ↦ elim (Bool-cases (count_if (owns team) s.members == 0)) [
    | inl o ↦ rw (e, o) (promote_earliest-Settled team s.members u)
    | inr o ↦ rw (e, o) (inl (count_if-some (owns team) s.members (ground arith)), refl)
  ]
]

-- The check after a change `t` of the rows of the team.
Settled-after :
    (team : ℕ) (s t : Store)
    → Unique t.members
    → others team t.members ≡ others team s.members
    → Commits (λ _ s'. Settled team s.members s'.members) (reconcile_ownership team t)
Settled-after team s t u e =
    elim (reconcile_ownership team t)
        as (λ r.
          Commits (λ _ s'. Settled team t.members s'.members) r
          → Commits (λ _ s'. Settled team s.members s'.members) r) [
            | ok a s' ↦ λ h. (h.0, h.1 ∙ e)
            | err d ↦ λ h. tt
          ]
      (reconcile_ownership-Settled team t u)

Commits-then :
    {A B : Type 0} (P : A → Store → Type 0) (Q : B → Store → Type 0) (r : DbResult A)
    (f : A → Store → DbResult B)
    → ((a : A) (s : Store) → P a s → Commits Q (f a s))
    → Commits P r
    → Commits Q (r >>= f)
Commits-then P Q (ok a s) f step h = step a s h
Commits-then P Q (err e) f step h = tt

pub Commits-ok :
    {A : Type 0} (P : A → Store → Type 0) (r : DbResult A) (a : A) (s : Store)
    → Commits P r
    → r ≡ ok a s
    → P a s
Commits-ok P r a s c e = subst (Commits P) e c

set_role-Commits :
    (team user : ℕ) (role : Role) (s : Store)
    → Unique s.members
    → IsOwned team s.members
    → Commits (λ _ s'. Settled team s.members s'.members) (set_role team user role s)
unfolding set_role write_role
set_role-Commits team user role s u o = elim (Option-cases (find (is_row team user) s.members)) [
  | inl e ↦ rw (set_role, e) (o, refl)
  | inr (m, e) ↦ elim (Bool-cases (demotes_sole_owner team m.role role s.members)) [
    | inl d ↦ rw (set_role, e, d) tt
    | inr d ↦
        rw (set_role, e, d)
          (Commits-then (λ _ s'. Settled team s.members s'.members)
            (λ _ s'. Settled team s.members s'.members)
            (reconcile_ownership team (write_role team user role s)) _ (λ a s' h. h)
            (Settled-after team s (write_role team user role s)
              (Unique-update (is_row team user) _ (λ m. refl) s.members u)
              (others-update team (is_row team user) _ s.members (λ m i q. ground arith)
                (λ m. refl))))
  ]
]

-- In a table with unique keys, a successful `set_role` on a team that has an owner or nobody leaves it
-- with an owner or nobody, and the rows of the other teams as they were.
pub set_role-Settled :
    (team user : ℕ) (role : Role) (s s' : Store) (b : Bool)
    → Unique s.members
    → IsOwned team s.members
    → set_role team user role s ≡ ok b s'
    → IsOwned team s'.members × (others team s'.members ≡ others team s.members)
set_role-Settled team user role s s' b u o =
    Commits-ok (λ _ t. Settled team s.members t.members) (set_role team user role s) b s'
      (set_role-Commits team user role s u o)

remove_member-Commits :
    (team user : ℕ) (s : Store)
    → Unique s.members
    → IsOwned team s.members
    → Commits (λ _ s'. Settled team s.members s'.members) (remove_member team user s)
unfolding remove_member delete_row
remove_member-Commits team user s u o =
    elim (Bool-cases ((team == root_team_id) && leb (count_if (in_team team) s.members) 1)) [
      | inl e ↦ rw e (o, refl)
      | inr e ↦ elim (Bool-cases (count_if (is_row team user) s.members == 0)) [
        | inl d ↦ rw (e, d) (o, refl)
        | inr d ↦
            rw (e, d)
              (Commits-then (λ _ s'. Settled team s.members s'.members)
                (λ _ s'. Settled team s.members s'.members)
                (reconcile_ownership team (delete_row team user s)) _ (λ a s' h. h)
                (Settled-after team s (delete_row team user s) (Unique-filter _ s.members u) (
                  others-filter team (λ m. not (is_row team user m)) s.members
                    (λ m q. ground arith))))
      ]
    ]

-- In a table with unique keys, a successful `remove_member` on a team that has an owner or nobody leaves
-- it with an owner or nobody, and the rows of the other teams as they were.
pub remove_member-Settled :
    (team user : ℕ) (s s' : Store) (b : Bool)
    → Unique s.members
    → IsOwned team s.members
    → remove_member team user s ≡ ok b s'
    → IsOwned team s'.members × (others team s'.members ≡ others team s.members)
remove_member-Settled team user s s' b u o =
    Commits-ok (λ _ t. Settled team s.members t.members) (remove_member team user s) b s'
      (remove_member-Commits team user s u o)
