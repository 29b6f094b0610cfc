-- ===== src/Server/Teams/Authority.antt =====
-- Who may change a member's role, remove a member or delete a team.
use rustify.Prelude.{ℕ, Bool, true, false, ◌||◌, some, ◌≡◌, refl, ap, ◌∙◌, Str}
use rustify.Core.Role.{Role, lt, gt, is_admin, from_str_coerce}
use rustify.Db.Teams.{User, Store, ok, role_in_team}
use rustify.Db.Teams.Ownership
use rustify.Db.Teams.Invitations.{get_by_uuid, revoke_user_sessions}
use rustify.Server.Teams.{accept, set_member_role, remove_member}
use rustify.Server.Teams.Steps.{
  not-false, Accepted, require-Accepted, guard-Accepted, run-Accepted, exec-Accepted, returns_last,
  exec_last, require_admin-Accepted, accepted,
}

or_false : (a b : Bool) → (a || b) ≡ false → (a ≡ false) × (b ≡ false)
or_false false false h = (refl, refl)
or_false true b h = cc
or_false false true h = cc

-- The acting user may manage `target`, and grant `new_role`.
pub record Grants (user team : ℕ) (new_role : Role) (target : User) (s : Store) : Type 0 where
  pub acting : Role
  pub current : Role
  pub is_acting : role_in_team user team s ≡ some acting
  pub manages : is_admin acting ≡ true
  pub is_current : role_in_team target.id team s ≡ some current
  pub not_above : lt acting new_role ≡ false
  pub not_outranked : gt current acting ≡ false

abbrev pub Regraded : ℕ → ℕ → Str → Str → Store → Store → Type 0
Regraded user team user_uuid role s s' =
    (target : User) × (t : Store) × (get_by_uuid user_uuid s ≡ some target)
    × Grants user team (from_str_coerce role) target s
    × (Ownership.set_role team target.id (from_str_coerce role) s ≡ ok true t)
    × (s' ≡ revoke_user_sessions target.id t)

set_member_role-Accepted :
    (user team : ℕ) (user_uuid role : Str) (s : Store)
    → Accepted
        (λ _. Regraded user team user_uuid role s)
        (set_member_role user team user_uuid role s)
unfolding set_member_role
set_member_role-Accepted user team user_uuid role s =
    require_admin-Accepted _ user team _ s (λ acting p a. require-Accepted _ _ _ _ s (λ target q.
      require-Accepted _ _ _ _ s (λ current r. guard-Accepted _ _ _ _ s (λ g.
        run-Accepted _ _ _ s (λ changed t e. guard-Accepted _ _ _ _ t (λ n. exec-Accepted _ _ _ t (
          returns_last _ _ _ (
            target,
            t,
            q,
            record {
              acting = acting;
              current = current;
              is_acting = p;
              manages = a;
              is_current = r;
              not_above = (or_false (lt acting (from_str_coerce role)) (gt current acting) g).0;
              not_outranked = (or_false (lt acting (from_str_coerce role)) (gt current acting) g).1;
            },
            (e ∙ ap (λ b. ok b t) (not-false changed n)),
            refl,
          ))))))))

-- The acting user may manage `target`.
pub record Manages (user team : ℕ) (target : User) (s : Store) : Type 0 where
  pub acting : Role
  pub current : Role
  pub is_acting : role_in_team user team s ≡ some acting
  pub manages : is_admin acting ≡ true
  pub is_current : role_in_team target.id team s ≡ some current
  pub not_outranked : gt current acting ≡ false

abbrev pub Removed : ℕ → ℕ → Str → Store → Store → Type 0
Removed user team user_uuid s s' =
    (target : User) × (t : Store) × (get_by_uuid user_uuid s ≡ some target)
    × Manages user team target s
    × (Ownership.remove_member team target.id s ≡ ok true t)
    × (s' ≡ revoke_user_sessions target.id t)

remove_member-Accepted :
    (user team : ℕ) (user_uuid : Str) (s : Store)
    → Accepted (λ _. Removed user team user_uuid s) (remove_member user team user_uuid s)
unfolding remove_member
remove_member-Accepted user team user_uuid s = require_admin-Accepted _ user team _ s (λ acting p a.
    require-Accepted _ _ _ _ s (λ target q. require-Accepted _ _ _ _ s (λ current r.
      guard-Accepted _ _ _ _ s (λ g. run-Accepted _ _ _ s (λ removed t e.
        guard-Accepted _ _ _ _ t (λ n. exec_last _ _ t (
          target,
          t,
          q,
          record {
            acting = acting;
            current = current;
            is_acting = p;
            manages = a;
            is_current = r;
            not_outranked = g;
          },
          (e ∙ ap (λ b. ok b t) (not-false removed n)),
          refl,
        )))))))

-- When the handler sets a role, the acting user is an admin or owner of the team and does not rank
-- below the role; the target is a member of the team who does not outrank the acting user; and the
-- store is that of `set_role`, with the target's sessions revoked.
pub set_member_role-Regraded :
    (user team : ℕ) (user_uuid role : Str) (s s' : Store) (reply : Str × Role)
    → set_member_role user team user_uuid role s ≡ accept reply s'
    → Regraded user team user_uuid role s s'
set_member_role-Regraded user team user_uuid role s s' reply =
    accepted (λ _. Regraded user team user_uuid role s) (set_member_role user team user_uuid role s)
      reply s' (set_member_role-Accepted user team user_uuid role s)

-- When the handler removes a member, the acting user is an admin or owner of the team, whom the target,
-- a member of the team, does not outrank; and the store is that of `remove_member`, with the target's
-- sessions revoked.
pub remove_member-Removed :
    (user team : ℕ) (user_uuid : Str) (s s' : Store)
    → remove_member user team user_uuid s ≡ accept tt s'
    → Removed user team user_uuid s s'
remove_member-Removed user team user_uuid s s' =
    accepted (λ _. Removed user team user_uuid s) (remove_member user team user_uuid s) tt s'
      (remove_member-Accepted user team user_uuid s)
