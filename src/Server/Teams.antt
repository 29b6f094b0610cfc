-- ===== src/Server/Teams.antt =====
-- crates/rustify-server/src/routes/teams.rs: the handlers that change teams. Each statement commits
-- on its own, so a handler that fails keeps what it has done. Answers carry the data that a client
-- can act on, and errors no message.
pub mod Steps
pub mod Authority
use rustify.Prelude.{
  ℕ, Bool, true, false, not, ◌&&◌, ◌||◌, Option, none, some, List, [], ◌∷◌, ◌++◌, Str, str_eq,
  codes, ◌==◌, ltb, leb, if◌then◌else◌, any, unwrap_or, ◌+◌,
}
use rustify.Core.Role.{Role, member, admin, owner, lt, gt, is_admin, as_str, from_str_coerce}
use rustify.Db.Teams.{
  Team, User, TeamInvitation, Store, DbError, DbResult, ok, err, invalid, database, root_team_id,
  role_in_team, get_by_id,
}
use rustify.Db.Teams
use rustify.Db.Teams.Ownership
use rustify.Db.Teams.Invitations.{
  get_by_uuid, members, find_invitation_for_email, set_active_team, revoke_user_sessions,
}
use rustify.Db.Teams.Invitations

pub data ApiError : Type 0 where
  unauthorized forbidden not_found validation conflict internal : ApiError

-- An answer, and the store that it leaves.
pub data ApiResult (A : Type 0) : Type 0 where
  accept : A → Store → ApiResult A
  reject : ApiError → Store → ApiResult A

abbrev pub Handler : Type 0 → Type 0
Handler A = Store → ApiResult A

-- A chain goes on with `f` where its first handler accepts.
unfoldable pub continue : {A B : Type 0} → (A → Handler B) → ApiResult A → ApiResult B
continue f (accept a s) = f a s
continue f (reject e s) = reject e s

infixl 5 ◌>>=◌
unfoldable pub ◌>>=◌ : {A B : Type 0} → Handler A → (A → Handler B) → Handler B
unfolding continue
(h >>= f) s = continue f (h s)

unfoldable pub pure : {A : Type 0} → A → Handler A
pure a s = accept a s

unfoldable pub throw : {A : Type 0} → ApiError → Handler A
throw e s = reject e s

-- From<DbError>; a failed statement is taken as internal.
unfoldable pub of_error : DbError → ApiError
of_error invalid = conflict
of_error database = internal

-- `?` on a repository's call: its transaction is rolled back by an error.
unfoldable pub run : {A : Type 0} → (Store → DbResult A) → Handler A
unfolding of_error
run call s = elim (call s) [ ok a s' ↦ (accept a s') | err e ↦ (reject (of_error e) s) ]

-- `ok_or(e)` on a query.
unfoldable pub require : {A : Type 0} → ApiError → (Store → Option A) → Handler A
require e query s = elim (query s) [ none ↦ (reject e s) | some a ↦ (accept a s) ]

unfoldable pub guard : Bool → ApiError → Handler (Unit {0})
unfolding pure throw
guard true e = throw e
guard false e = pure tt

unfoldable pub exec : (Store → Store) → Handler (Unit {0})
exec change s = accept tt (change s)

unfoldable pub membership : ℕ → ℕ → Handler Role
membership user team = require not_found (role_in_team user team)

unfoldable pub require_admin : ℕ → ℕ → Handler Role
require_admin user team = do
  role ← membership user team
  _ ← guard (not (is_admin role)) forbidden
  pure role

unfoldable pub delete : ℕ → ℕ → Handler (Unit {0})
delete user team = do
  _ ← require_admin user team
  _ ← guard (team == root_team_id) forbidden
  deleted ← run (Teams.delete team)
  guard (not deleted) not_found

unfoldable pub set_member_role : ℕ → ℕ → Str → Str → Handler (Str × Role)
set_member_role user team user_uuid role = do
  acting ← require_admin user team
  let new_role = from_str_coerce role
  target ← require not_found (get_by_uuid user_uuid)
  current ← require not_found (role_in_team target.id team)
  _ ← guard (lt acting new_role || gt current acting) forbidden
  changed ← run (Ownership.set_role team target.id new_role)
  _ ← guard (not changed) not_found
  _ ← exec (revoke_user_sessions target.id)
  pure (target.uuid, new_role)

unfoldable pub remove_member : ℕ → ℕ → Str → Handler (Unit {0})
remove_member user team user_uuid = do
  acting ← require_admin user team
  target ← require not_found (get_by_uuid user_uuid)
  current ← require not_found (role_in_team target.id team)
  _ ← guard (gt current acting) forbidden
  removed ← run (Ownership.remove_member team target.id)
  _ ← guard (not removed) forbidden
  exec (revoke_user_sessions target.id)
