-- ===== src/Server/Invitations.antt =====
-- crates/rustify-server/src/routes/teams.rs: the handlers by which users come into teams. The uuid
-- generator's answer, the clock and the Unicode `to_lowercase` are arguments.
pub mod Invited
use rustify.Prelude.{
  ℕ, Bool, true, false, not, ◌&&◌, ◌||◌, Option, none, some, List, [], ◌∷◌, ◌++◌, Str, str_eq,
  codes, ◌==◌, ltb, leb, if◌then◌else◌, any, unwrap_or, ◌+◌, contains, map, is_some,
}
use rustify.Prelude.Chars.{trim, eq_ignore_ascii_case}
use rustify.Core.Role.{Role, member, admin, owner, lt, gt, is_admin, as_str, from_str_coerce}
use rustify.Db.Teams.{
  Team, User, TeamInvitation, Store, DbError, DbResult, ok, err, role_in_team, get_by_id, is_valid,
  create_team, update, add_member,
}
use rustify.Db.Teams.Invitations.{
  get_by_uuid, members, find_invitation_for_email, get_invitation, set_active_team,
}
use rustify.Db.Teams.Invitations
use rustify.Server.Teams.{
  ApiError, forbidden, not_found, validation, conflict, ApiResult, Handler, ◌>>=◌, pure, throw, run,
  require, guard, exec, require_admin,
}

unfoldable pub create : ℕ → Str → Str → Option Str → Handler (Team × Option Role)
create user uuid name description = do
  let name = trim name
  _ ← guard (str_eq name []) validation
  team ← run (create_team uuid name false)
  _ ← elim description [
    | none ↦ pure tt
    | some d ↦ (run (update team.id none (some d) none) >>= λ _. pure tt)
  ]
  _ ← run (add_member team.id user admin)
  team ← require not_found (get_by_id team.id)
  pure (team, some admin)

-- The two channels that an invitation may name.
unfoldable pub parse_via : Option Str → Handler Str
unfolding pure throw
parse_via via =
    let v = unwrap_or via (codes "link") in
    if str_eq v (codes "email")
    then pure (codes "email")
    else if str_eq v (codes "link")
    then pure (codes "link")
    else throw validation

-- An expired invitation is deleted, a valid one refuses.
unfoldable pub replace_expired : ℕ → Option TeamInvitation → Handler (Unit {0})
replace_expired now none = pure tt
replace_expired now (some existing) = do
  _ ← guard (is_valid now existing) conflict
  _ ← run (Invitations.delete_invitation existing.uuid)
  pure tt

module _ (to_lowercase : Str → Str) where
  unfoldable pub create_invitation :
      ℕ → Str → ℕ → ℕ → Str → Option Str → Option Str → Handler TeamInvitation
  create_invitation now uuid user team email role via = do
    acting ← require_admin user team
    let email = to_lowercase (trim email)
    _ ← guard (not (contains (codes "@") email)) validation
    let role = from_str_coerce (unwrap_or role (codes "member"))
    via ← parse_via via
    _ ← guard (lt acting role) forbidden
    present ←
        require not_found
          (λ s. some (any (λ (u : User). eq_ignore_ascii_case u.email email) (members team s)))
    _ ← guard present conflict
    existing ← require not_found (λ s. some (find_invitation_for_email to_lowercase team email s))
    _ ← replace_expired now existing
    run (
        Invitations.create_invitation to_lowercase team uuid email role
          (some (codes "/invitations/" ++ uuid)) via now)

unfoldable pub delete_invitation : ℕ → Str → Handler (Unit {0})
delete_invitation user uuid = do
  invitation ← require not_found (get_invitation uuid)
  _ ← require_admin user invitation.team_id
  deleted ← run (Invitations.delete_invitation uuid)
  guard (not deleted) not_found

-- An expired invitation is deleted before the refusal.
unfoldable pub drop_expired : ℕ → TeamInvitation → Handler (Unit {0})
drop_expired now i =
    if is_valid now i
    then pure tt
    else (run (Invitations.delete_invitation i.uuid) >>= λ _. throw validation)

unfoldable pub accept_invitation : ℕ → User → Str → Handler (Team × Option Role)
accept_invitation now user uuid = do
  invitation ← require not_found (get_invitation uuid)
  _ ← guard (not (eq_ignore_ascii_case user.email invitation.email)) forbidden
  _ ← drop_expired now invitation
  joined ← run (Invitations.accept_invitation uuid user.id)
  team_id ← require not_found (λ _. joined)
  _ ← exec (set_active_team user.id team_id)
  role ← require not_found (λ s. some (role_in_team user.id team_id s))
  team ← require not_found (get_by_id team_id)
  pure (team, role)

unfoldable pub switch_team : ℕ → ℕ → Handler (Team × Option Role)
switch_team user id = do
  role ← require not_found (role_in_team user id)
  _ ← exec (set_active_team user id)
  team ← require not_found (get_by_id id)
  pure (team, some role)
