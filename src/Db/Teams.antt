-- ===== src/Db/Teams.antt =====
-- crates/rustify-db/src/repos/teams.rs: teams, the membership pivot `team_user` and invitations.
-- `Store` holds the tables that these statements read and write. An error rolls the transaction
-- back, so a result carries the new store only if it is `ok`. Times are seconds.
pub mod Ownership
pub mod Invitations
use rustify.Prelude.{
  ℕ, ◌+◌, ◌*◌, Bool, true, false, not, ◌&&◌, ◌||◌, Option, none, some, List, [], ◌∷◌, ◌++◌, map,
  Str, str_eq, codes, ◌==◌, ltb, leb, if◌then◌else◌, filter, count_if, any, find, map_option,
  is_some, length,
}
use rustify.Prelude.Keyed.{Keyed, update_where}
use rustify.Core.Role.{Role, member, admin, owner, is_owner, as_str, from_str_coerce}

abbrev pub root_team_id : ℕ
root_team_id = 0

abbrev pub invitation_expiration_days : ℕ
invitation_expiration_days = 3

pub record Team : Type 0 where
  pub id : ℕ
  pub uuid : Str
  pub name : Str
  pub description : Option Str
  pub personal_team : Bool
  pub custom_server_limit : Option ℕ

-- A row of `team_user`.
pub record Membership : Type 0 where
  pub id : ℕ
  pub team_id : ℕ
  pub user_id : ℕ
  pub role : Str

pub record TeamInvitation : Type 0 where
  pub id : ℕ
  pub uuid : Str
  pub team_id : ℕ
  pub email : Str
  pub role : Str
  pub link : Option Str
  pub via : Str
  pub created_at : ℕ

pub record User : Type 0 where
  pub id : ℕ
  pub uuid : Str
  pub email : Str
  pub name : Str
  pub team_id : ℕ  -- the active team

instance abbrev pub membership_keyed : Keyed Membership
membership_keyed = record { key = λ m. m.id }

-- `referenced` are the teams that rows of further tables point to, which blocks a DELETE.
pub record Store : Type 0 where
  pub teams : List Team
  pub members : List Membership
  pub invitations : List TeamInvitation
  pub users : List User
  pub sessions : List ℕ  -- the user of each session
  pub referenced : ℕ → Bool
  pub next_id : ℕ  -- above every id

pub data DbError : Type 0 where
  invalid : DbError  -- with the message of the guard
  database : DbError  -- a statement failed

pub data DbResult (A : Type 0) : Type 0 where
  ok : A → Store → DbResult A
  err : DbError → DbResult A

infixl 5 ◌>>=◌
abbrev pub ◌>>=◌ : {A B : Type 0} → DbResult A → (A → Store → DbResult B) → DbResult B
ok a s >>= f = f a s
err e >>= f = err e

abbrev pub in_team : ℕ → Membership → Bool
in_team team m = m.team_id == team

abbrev pub is_row : ℕ → ℕ → Membership → Bool
is_row team user m = (m.team_id == team) && (m.user_id == user)

-- team_id = $1 AND role = 'owner'
abbrev pub owns : ℕ → Membership → Bool
owns team m = (m.team_id == team) && str_eq m.role (codes "owner")

-- TeamInvitation::is_valid
unfoldable pub is_valid : ℕ → TeamInvitation → Bool
is_valid now i = leb now (i.created_at + invitation_expiration_days * 86400)

unfoldable pub create_team : Str → Str → Bool → Store → DbResult Team
create_team uuid name personal s =
    let team : Team = record {
      id = s.next_id;
      uuid = uuid;
      name = name;
      description = none;
      personal_team = personal;
      custom_server_limit = none;
    } in
    ok team (record s { teams = s.teams ++ team ∷ []; next_id = s.next_id + 1 })

unfoldable pub get_by_id : ℕ → Store → Option Team
get_by_id id s = find (λ t. t.id == id) s.teams

-- COALESCE($n, column)
abbrev coalesce : {A : Type 0} → Option A → A → A
coalesce none a = a
coalesce (some b) a = b

abbrev or_else : {A : Type 0} → Option A → Option A → Option A
or_else none a = a
or_else (some b) a = some b

unfoldable pub update : ℕ → Option Str → Option Str → Option ℕ → Store → DbResult (Option Team)
update id name description limit s =
    let write = λ (t : Team). record t {
      name = coalesce name t.name;
      description = or_else description t.description;
      custom_server_limit = or_else limit t.custom_server_limit;
    } in
    ok (map_option write (find (λ t. t.id == id) s.teams))
      (record s { teams = update_where (λ t. t.id == id) write s.teams })

-- DELETE FROM teams: the pivot and invitation rows cascade; a reference from an active team
-- pointer or from a further table is an error.
unfoldable pub delete_team_row : ℕ → Store → DbResult Bool
delete_team_row id s =
    if any (λ u. u.team_id == id) s.users || s.referenced id
    then err database
    else ok (count_if (λ t. t.id == id) s.teams == 1) (record s {
      teams = filter (λ t. not (t.id == id)) s.teams;
      members = filter (λ m. not (in_team id m)) s.members;
      invitations = filter (λ i. not (i.team_id == id)) s.invitations;
    })

unfoldable pub delete : ℕ → Store → DbResult Bool
unfolding delete_team_row
delete id s = if id == root_team_id then ok false s else delete_team_row id s

-- ON CONFLICT (team_id, user_id) DO NOTHING
unfoldable pub insert_member : ℕ → ℕ → Str → Store → Store
insert_member team user role s = if any (is_row team user) s.members then s else record s {
  members =
      s.members ++ record { id = s.next_id; team_id = team; user_id = user; role = role } ∷ [];
  next_id = s.next_id + 1;
}

unfoldable pub add_member : ℕ → ℕ → Role → Store → DbResult (Unit {0})
unfolding insert_member
add_member team user role s = ok tt (insert_member team user (as_str role) s)

unfoldable pub is_member : ℕ → ℕ → Store → Bool
is_member team user s = any (is_row team user) s.members

unfoldable pub role_in_team : ℕ → ℕ → Store → Option Role
role_in_team user team s =
    map_option (λ (m : Membership). from_str_coerce m.role) (find (is_row team user) s.members)

unfoldable pub member_count : ℕ → Store → ℕ
member_count team s = count_if (in_team team) s.members
