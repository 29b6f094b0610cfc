-- ===== src/Server/Tests.antt =====
-- Runs of the team handlers and of the statements that they rest on.
use rustify.Prelude.{ℕ, true, false, none, some, [], ◌∷◌, ◌≡◌, refl, arith, inl, Str, codes, str_eq}
use rustify.Prelude.Keyed.{Unique}
use rustify.Prelude.Chars.{eq_ignore_ascii_case, ascii_lower}
use rustify.Core.Role.{admin, lt, gt, is_admin, is_owner, as_str, from_str_coerce}
use rustify.Db.Teams.{
  membership_keyed, Team, User, Membership, TeamInvitation, Store, ok, is_valid, role_in_team,
  get_by_id,
}
use rustify.Db.Teams.Ownership.{set_role, remove_member}
use rustify.Db.Teams.Ownership.Owned.{IsOwned, others, set_role-Settled, remove_member-Settled}
use rustify.Db.Teams.Invitations.{
  get_by_uuid, get_invitation, set_active_team, revoke_user_sessions,
}
use rustify.Db.Teams.Invitations
use rustify.Server.Teams.{
  accept, ◌>>=◌, continue, pure, guard, throw, run, require, exec, membership, require_admin,
  set_member_role,
}
use rustify.Server.Teams
use rustify.Server.Teams.Authority.{
  Regraded, Removed, set_member_role-Regraded, remove_member-Removed,
}
use rustify.Server.Invitations.{accept_invitation, drop_expired}
use rustify.Server.Invitations.Invited.{Joined, accept_invitation-Joined}

abbrev team : ℕ → Str → Team
team id name = record {
  id = id;
  uuid = codes "t";
  name = name;
  description = none;
  personal_team = false;
  custom_server_limit = none;
}

abbrev ann : User
ann = record {
  id = 7;
  uuid = codes "ann";
  email = codes "ann@x.org";
  name = codes "Ann";
  team_id = 1;
}

abbrev ben : User
ben = record {
  id = 8;
  uuid = codes "ben";
  email = codes "ben@x.org";
  name = codes "Ben";
  team_id = 2;
}

abbrev invite : TeamInvitation
invite = record {
  id = 5;
  uuid = codes "i";
  team_id = 2;
  email = codes "Ann@x.org";
  role = codes "admin";
  link = none;
  via = codes "link";
  created_at = 100;
}

abbrev ann_owns : Membership
ann_owns = record { id = 1; team_id = 1; user_id = 7; role = codes "owner" }

abbrev ben_joins : Membership
ben_joins = record { id = 2; team_id = 1; user_id = 8; role = codes "member" }

abbrev ben_owns : Membership
ben_owns = record { id = 3; team_id = 2; user_id = 8; role = codes "owner" }

abbrev store : Store
store = record {
  teams = team 0 (codes "root") ∷ team 1 (codes "one") ∷ team 2 (codes "two") ∷ [];
  members = ann_owns ∷ ben_joins ∷ ben_owns ∷ [];
  invitations = invite ∷ [];
  users = ann ∷ ben ∷ [];
  sessions = 8 ∷ 7 ∷ 8 ∷ [];
  referenced = λ _. false;
  next_id = 9;
}

abbrev promoted : Store
promoted = record store {
  members = ann_owns ∷ record ben_joins { role = codes "admin" } ∷ ben_owns ∷ [];
}

store-Unique : Unique store.members
store-Unique = ((omega arith, (omega arith, tt)), ((omega arith, tt), (tt, tt)))

set_role_run : set_role 1 8 admin store ≡ ok true promoted
unfolding set_role is_owner from_str_coerce str_eq as_str
set_role_run = refl

set_role-Settled_example :
    IsOwned 1 promoted.members × (others 1 promoted.members ≡ others 1 store.members)
unfolding str_eq
set_role-Settled_example =
    set_role-Settled 1 8 admin store promoted true store-Unique (inl refl) set_role_run

-- Ann leaves, and Ben inherits the team.
abbrev inherited : Store
inherited = record store { members = record ben_joins { role = codes "owner" } ∷ ben_owns ∷ [] }

remove_member_run : remove_member 1 7 store ≡ ok true inherited
unfolding remove_member str_eq
remove_member_run = refl

remove_member-Settled_example :
    IsOwned 1 inherited.members × (others 1 inherited.members ≡ others 1 store.members)
unfolding str_eq
remove_member-Settled_example =
    remove_member-Settled 1 7 store inherited true store-Unique (inl refl) remove_member_run

set_member_role_run :
    set_member_role 7 1 (codes "ben") (codes "admin") store
    ≡ accept (codes "ben", admin) (record promoted { sessions = 7 ∷ [] })
unfolding set_member_role ◌>>=◌ continue pure guard throw run require exec membership require_admin
    is_admin lt gt get_by_uuid role_in_team set_role revoke_user_sessions from_str_coerce str_eq
    is_owner as_str
set_member_role_run = refl

set_member_role-Regraded_example :
    Regraded 7 1 (codes "ben") (codes "admin") store (record promoted { sessions = 7 ∷ [] })
set_member_role-Regraded_example =
    set_member_role-Regraded 7 1 (codes "ben") (codes "admin") store
      (record promoted { sessions = 7 ∷ [] }) (codes "ben", admin) set_member_role_run

abbrev left : Store
left = record store { members = ann_owns ∷ ben_owns ∷ []; sessions = 7 ∷ [] }

remove_run : Teams.remove_member 7 1 (codes "ben") store ≡ accept tt left
unfolding Teams.remove_member ◌>>=◌ continue pure guard throw run require exec membership
    require_admin is_admin lt gt get_by_uuid role_in_team remove_member revoke_user_sessions
    from_str_coerce str_eq
remove_run = refl

remove_member-Removed_example : Removed 7 1 (codes "ben") store left
remove_member-Removed_example = remove_member-Removed 7 1 (codes "ben") store left remove_run

abbrev joined : Store
joined = record store {
  members =
      ann_owns
      ∷ ben_joins
      ∷ ben_owns
      ∷ record { id = 9; team_id = 2; user_id = 7; role = codes "admin" }
      ∷ [];
  invitations = [];
  users = record ann { team_id = 2 } ∷ ben ∷ [];
  next_id = 10;
}

accept_run :
    accept_invitation 200 ann (codes "i") store ≡ accept (team 2 (codes "two"), some admin) joined
unfolding accept_invitation ◌>>=◌ continue pure guard throw run require exec eq_ignore_ascii_case
    drop_expired is_valid Invitations.accept_invitation get_invitation set_active_team role_in_team
    get_by_id str_eq ascii_lower from_str_coerce
accept_run = refl

accept_invitation-Joined_example :
    (i : TeamInvitation) × (get_invitation (codes "i") store ≡ some i)
    × Joined 200 ann i store joined
accept_invitation-Joined_example =
    accept_invitation-Joined 200 ann (codes "i") store joined (team 2 (codes "two"), some admin)
      accept_run
