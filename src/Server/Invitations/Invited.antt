-- ===== src/Server/Invitations/Invited.antt =====
-- Who may accept an invitation, and what it gives.
use rustify.Prelude.{
  ℕ, Bool, true, false, not, Option, none, some, ◌≡◌, refl, arith, ap, subst, sym, ◌∙◌, Str, ◌==◌,
  any, find, Bool-cases, inl, inr, filter, find, List, [], ◌∷◌, ◌++◌, unwrap_or,
}
use rustify.Prelude.Chars.{eq_ignore_ascii_case}
use rustify.Core.Role.{Role, from_str_coerce}
use rustify.Db.Teams.{
  Team, TeamInvitation, User, Store, DbResult, ok, err, role_in_team, is_valid, is_row,
  insert_member,
}
use rustify.Db.Teams.Invitations
use rustify.Db.Teams.Invitations.{get_invitation, set_active_team}
use rustify.Server.Teams.{Handler, accept, ◌>>=◌, validation}
use rustify.Server.Invitations.{accept_invitation, drop_expired}
use rustify.Server.Teams.Steps.{
  not-false, Accepted, require-Accepted, guard-Accepted, run-Accepted, exec-Accepted, returns,
  returns_last, refused, regroup, accepted,
}

drop_expired-Accepted :
    {B : Type 0} (P : B → Store → Type 0) (now : ℕ) (i : TeamInvitation) (f : Unit → Handler B)
    (s : Store)
    → (is_valid now i ≡ true → Accepted P (f tt s))
    → Accepted P ((drop_expired now i >>= f) s)
unfolding drop_expired
drop_expired-Accepted P now i f s step = elim (Bool-cases (is_valid now i)) [
  | inl v ↦ rw v (returns P tt f s (step v))
  | inr v ↦ rw v (regroup P _ _ f s (run-Accepted P _ _ s (λ a t e. refused P validation f t)))
]

find_absent : {A : Type 0} (p : A → Bool) (xs : List A) → any p xs ≡ false → find p xs ≡ none
find_absent p [] h = refl
find_absent p (x ∷ xs) h = ground (arith, find_absent p xs)

find_present :
    {A : Type 0} (p : A → Bool) (xs : List A) → any p xs ≡ true → (x : A) × (find p xs ≡ some x)
find_present p [] h = cc
find_present p (x ∷ xs) h = elim (Bool-cases (p x)) [
  | inl e ↦ rw e (x, refl)
  | inr e ↦ rw e (find_present p xs (ground (arith, e)))
]

find_appended :
    {A : Type 0} (p : A → Bool) (xs : List A) (x : A)
    → any p xs ≡ false
    → p x ≡ true
    → find p (xs ++ x ∷ []) ≡ some x
find_appended p [] x h t = rw t refl
find_appended p (y ∷ xs) x h t = ground (arith, find_appended p xs x)

-- Joining keeps the role of one who is a member already.
insert_member-role :
    (team user : ℕ) (role : Str) (s : Store)
    → role_in_team user team (insert_member team user role s)
      ≡ some (unwrap_or (role_in_team user team s) (from_str_coerce role))
unfolding insert_member role_in_team
insert_member-role team user role s = elim (Bool-cases (any (is_row team user) s.members)) [
  | inl e ↦ let (m, f) = find_present (is_row team user) s.members e in rw (e, f) refl
  | inr e ↦
      rw
        (
          e,
          find_absent (is_row team user) s.members e,
          find_appended (is_row team user) s.members
              (record { id = s.next_id; team_id = team; user_id = user; role = role }) e
              (ground arith),
        )
        refl
]

without : ℕ → List TeamInvitation → List TeamInvitation
without id = filter (λ j. not (j.id == id))

without-any : (id : ℕ) (is : List TeamInvitation) → any (λ j. j.id == id) (without id is) ≡ false
unfolding without
without-any id [] = refl
without-any id (i ∷ is) = ground (arith, without-any id is)

-- The store in which `i` has been used by `user`.
used : TeamInvitation → ℕ → Store → Store
used i user s =
    let joined = insert_member i.team_id user i.role s in
    record joined { invitations = without i.id joined.invitations }

accept_invitation-used :
    (uuid : Str) (user : ℕ) (i : TeamInvitation) (s : Store)
    → get_invitation uuid s ≡ some i
    → Invitations.accept_invitation uuid user s ≡ ok (some i.team_id) (used i user s)
unfolding Invitations.accept_invitation get_invitation used without
accept_invitation-used uuid user i s q = rw (Invitations.accept_invitation, q) refl

store_of : {A : Type 0} → Store → DbResult A → Store
store_of d (ok a t) = t
store_of d (err e) = d

committed :
    {A : Type 0} (s t u : Store) (a b : A) (r : DbResult A) → r ≡ ok a t → r ≡ ok b u → u ≡ t
unfolding store_of
committed s t u a b r p q = ap (store_of s) (sym q ∙ p)

role_in_team-used :
    (i : TeamInvitation) (user team other : ℕ) (s : Store)
    → role_in_team user i.team_id (set_active_team user other (used i user s))
      ≡ some (unwrap_or (role_in_team user i.team_id s) (from_str_coerce i.role))
unfolding role_in_team set_active_team used
role_in_team-used i user team other s = insert_member-role i.team_id user i.role s

used-any :
    (i : TeamInvitation) (user other : ℕ) (s : Store)
    → any (λ j. j.id == i.id) (set_active_team user other (used i user s)).invitations ≡ false
unfolding set_active_team used
used-any i user other s = without-any i.id (insert_member i.team_id user i.role s).invitations

-- What a user has who was invited by `i`.
pub record Joined (now : ℕ) (user : User) (i : TeamInvitation) (s s' : Store) : Type 0 where
  pub is_invited : eq_ignore_ascii_case user.email i.email ≡ true
  pub is_current : is_valid now i ≡ true
  pub has_role :
      role_in_team user.id i.team_id s'
      ≡ some (unwrap_or (role_in_team user.id i.team_id s) (from_str_coerce i.role))
  pub is_used : any (λ j. j.id == i.id) s'.invitations ≡ false

accept_invitation-Accepted :
    (now : ℕ) (user : User) (uuid : Str) (s : Store)
    → Accepted
        (λ _ s'. (i : TeamInvitation) × (get_invitation uuid s ≡ some i) × Joined now user i s s')
        (accept_invitation now user uuid s)
unfolding accept_invitation
accept_invitation-Accepted now user uuid s = require-Accepted _ _ _ _ s (λ i q.
    guard-Accepted _ _ _ _ s (λ g. drop_expired-Accepted _ now i _ s (λ v.
      run-Accepted _ _ _ s (λ joined t e. require-Accepted _ _ _ _ t (λ team p.
        exec-Accepted _ _ _ t (
          require-Accepted _ _ _ _ _ (λ role r. require-Accepted _ _ _ _ _ (λ row w.
            returns_last _ _ _ (
              i,
              q,
              record {
                is_invited = not-false (eq_ignore_ascii_case user.email i.email) g;
                is_current = v;
                has_role =
                    subst
                      (λ x.
                        role_in_team user.id i.team_id (set_active_team user.id team x)
                        ≡ some
                            (unwrap_or (role_in_team user.id i.team_id s) (from_str_coerce i.role)))
                      (committed s t (used i user.id s) joined (some i.team_id)
                        (Invitations.accept_invitation uuid user.id s) e
                        (accept_invitation-used uuid user.id i s q))
                      (role_in_team-used i user.id i.team_id team s);
                is_used =
                    subst
                      (λ x.
                        any (λ j. j.id == i.id) (set_active_team user.id team x).invitations
                        ≡ false)
                      (committed s t (used i user.id s) joined (some i.team_id)
                        (Invitations.accept_invitation uuid user.id s) e
                        (accept_invitation-used uuid user.id i s q))
                      (used-any i user.id team s);
              },
            )))))))))

-- When the handler accepts an invitation, one with that uuid was stored, for the user's address (up to
-- the case of ASCII letters), and at `now` it had not expired; afterwards the user has a role in its
-- team, the former one if there was one and else the invitation's; and the invitation is gone.
pub accept_invitation-Joined :
    (now : ℕ) (user : User) (uuid : Str) (s s' : Store) (reply : Team × Option Role)
    → accept_invitation now user uuid s ≡ accept reply s'
    → (i : TeamInvitation) × (get_invitation uuid s ≡ some i) × Joined now user i s s'
accept_invitation-Joined now user uuid s s' reply =
    accepted
      (λ _ t. (i : TeamInvitation) × (get_invitation uuid s ≡ some i) × Joined now user i s t)
      (accept_invitation now user uuid s) reply s' (accept_invitation-Accepted now user uuid s)
