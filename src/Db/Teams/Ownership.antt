-- ===== src/Db/Teams/Ownership.antt =====
-- crates/rustify-db/src/repos/teams.rs: the changes of a team's pivot rows that keep it owned.
pub mod Owned
use rustify.Prelude.{
  ℕ, Bool, true, false, not, ◌&&◌, ◌||◌, Option, none, some, List, [], ◌∷◌, Str, ◌==◌, leb,
  if◌then◌else◌, filter, count_if, find, map, codes, unwrap_or, map_option, ltb,
}
use rustify.Prelude.Keyed.{update_where}
use rustify.Core.Role.{Role, owner, is_owner, as_str, from_str_coerce}
use rustify.Db.Teams.{
  Membership, User, Store, DbResult, ok, err, invalid, ◌>>=◌, in_team, is_row, owns, root_team_id,
  delete_team_row,
}

-- ORDER BY f LIMIT 1
unfoldable pub lowest : {A : Type 0} → (A → ℕ) → List A → Option A
lowest f [] = none
lowest f (x ∷ xs) = elim (lowest f xs) [
  | none ↦ some x
  | some y ↦ if leb (f x) (f y) then some x else some y
]

-- The lowest team that a user still belongs to, else the root team.
unfoldable pub fallback_team : List Membership → User → ℕ
unfolding lowest
fallback_team members u =
    unwrap_or
      (map_option (λ (m : Membership). m.team_id)
        (lowest (λ m. m.team_id) (filter (λ m. m.user_id == u.id) members)))
      root_team_id

unfoldable pub repoint : ℕ → Store → Store
unfolding fallback_team
repoint team s = record s {
  users =
      update_where (λ u. u.team_id == team) (λ u. record u { team_id = fallback_team s.members u })
        s.users;
}

-- UPDATE team_user SET role = 'owner' WHERE id = (SELECT … ORDER BY id LIMIT 1)
unfoldable pub promote_earliest : ℕ → List Membership → List Membership
unfolding lowest
promote_earliest team members = elim (lowest (λ m. m.id) (filter (in_team team) members)) [
  | none ↦ members
  | some e ↦ update_where (λ m. m.id == e.id) (λ m. record m { role = codes "owner" }) members
]

unfoldable pub reconcile_ownership : ℕ → Store → DbResult (Unit {0})
unfolding delete_team_row repoint promote_earliest
reconcile_ownership team s =
    if count_if (in_team team) s.members == 0
    then (if team == root_team_id
        then ok tt s
        else (delete_team_row team (repoint team s) >>= λ _ s'. ok tt s'))
    else if count_if (owns team) s.members == 0
    then ok tt (record s { members = promote_earliest team s.members })
    else ok tt s

-- The sole owner would be demoted.
unfoldable pub demotes_sole_owner : ℕ → Str → Role → List Membership → Bool
demotes_sole_owner team current role members =
    (is_owner (from_str_coerce current) && not (is_owner role))
    && leb (count_if (owns team) members) 1

unfoldable pub write_role : ℕ → ℕ → Role → Store → Store
write_role team user role s = record s {
  members = update_where (is_row team user) (λ m. record m { role = as_str role }) s.members;
}

unfoldable pub set_role : ℕ → ℕ → Role → Store → DbResult Bool
unfolding reconcile_ownership demotes_sole_owner write_role
set_role team user role s = elim (find (is_row team user) s.members) [
  | none ↦ ok false s
  | some current ↦
      if demotes_sole_owner team current.role role s.members
      then err invalid
      else (reconcile_ownership team (write_role team user role s) >>= λ _ s'.
          ok (count_if (is_row team user) s.members == 1) s')
]

unfoldable pub delete_row : ℕ → ℕ → Store → Store
delete_row team user s = record s { members = filter (λ m. not (is_row team user m)) s.members }

unfoldable pub remove_member : ℕ → ℕ → Store → DbResult Bool
unfolding reconcile_ownership delete_row
remove_member team user s =
    if (team == root_team_id) && leb (count_if (in_team team) s.members) 1
    then ok false s
    else if count_if (is_row team user) s.members == 0
    then ok false s
    else (reconcile_ownership team (delete_row team user s) >>= λ _ s'. ok true s')
