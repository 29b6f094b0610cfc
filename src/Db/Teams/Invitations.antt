-- ===== src/Db/Teams/Invitations.antt =====
-- crates/rustify-db/src/repos/teams.rs: a team's invitations; users.rs and settings.rs: the active
-- team and the sessions of a user. `to_lowercase` is the full Unicode mapping, an argument here.
use rustify.Prelude.{
  ℕ, Bool, ◌+◌, not, ◌&&◌, Option, none, some, List, [], ◌∷◌, ◌++◌, Str, str_eq, ◌==◌, find, filter,
  any, count_if, if◌then◌else◌,
}
use rustify.Prelude.Keyed.{update_where}
use rustify.Core.Role.{Role, as_str}
use rustify.Db.Teams.{
  TeamInvitation, User, Store, DbResult, ok, err, database, in_team, insert_member,
}

-- UNIQUE (team_id, email) refuses a second row.
unfoldable pub create_invitation :
    (Str → Str) → ℕ → Str → Str → Role → Option Str → Str → ℕ → Store → DbResult TeamInvitation
create_invitation to_lowercase team uuid email role link via now s =
    let i : TeamInvitation = record {
      id = s.next_id;
      uuid = uuid;
      team_id = team;
      email = to_lowercase email;
      role = as_str role;
      link = link;
      via = via;
      created_at = now;
    } in
    if any (λ j. (j.team_id == team) && str_eq j.email i.email) s.invitations
    then err database
    else ok i (record s { invitations = s.invitations ++ i ∷ []; next_id = s.next_id + 1 })

unfoldable pub get_invitation : Str → Store → Option TeamInvitation
get_invitation uuid s = find (λ i. str_eq i.uuid uuid) s.invitations

unfoldable pub find_invitation_for_email : (Str → Str) → ℕ → Str → Store → Option TeamInvitation
find_invitation_for_email to_lowercase team email s =
    find (λ i. (i.team_id == team) && str_eq i.email (to_lowercase email)) s.invitations

unfoldable pub delete_invitation : Str → Store → DbResult Bool
delete_invitation uuid s =
    ok (count_if (λ i. str_eq i.uuid uuid) s.invitations == 1)
      (record s { invitations = filter (λ i. not (str_eq i.uuid uuid)) s.invitations })

unfoldable pub accept_invitation : Str → ℕ → Store → DbResult (Option ℕ)
unfolding insert_member
accept_invitation uuid user s = elim (find (λ i. str_eq i.uuid uuid) s.invitations) [
  | none ↦ ok none s
  | some invite ↦
      let joined = insert_member invite.team_id user invite.role s in
      ok (some invite.team_id)
        (record joined { invitations = filter (λ i. not (i.id == invite.id)) joined.invitations })
]

-- The users that the pivot joins to a team.
unfoldable pub members : ℕ → Store → List User
members team s = filter (λ u. any (λ m. in_team team m && (m.user_id == u.id)) s.members) s.users

unfoldable pub get_by_uuid : Str → Store → Option User
get_by_uuid uuid s = find (λ u. str_eq u.uuid uuid) s.users

unfoldable pub set_active_team : ℕ → ℕ → Store → Store
set_active_team user team s = record s {
  users = update_where (λ u. u.id == user) (λ u. record u { team_id = team }) s.users;
}

unfoldable pub revoke_user_sessions : ℕ → Store → Store
revoke_user_sessions user s = record s { sessions = filter (λ o. not (o == user)) s.sessions }
