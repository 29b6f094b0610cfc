-- ===== src/Server/Teams/Steps.antt =====
-- What an accepted answer of a handler says, step by step.
use rustify.Prelude.{
  not, refl, ℕ, Bool, true, false, not, Option, none, some, ◌≡◌, refl, arith, inl, inr,
  Option-cases, subst, sym,
}
use rustify.Core.Role.{Role, is_admin}
use rustify.Db.Teams.{Store, DbResult, ok, err, role_in_team}
use rustify.Server.Teams.{
  ApiError, forbidden, not_found, ApiResult, accept, reject, Handler, continue, ◌>>=◌, pure, throw,
  run, require, guard, exec, of_error, membership, require_admin,
}

-- An accepted answer and the store after it are as `P` says.
abbrev pub Accepted : {A : Type 0} → (A → Store → Type 0) → ApiResult A → Type 0
Accepted P (accept a s) = P a s
Accepted P (reject e s) = Unit

module _ {A B : Type 0} (P : B → Store → Type 0) (h : Handler A) (f : A → Handler B)
    (s : Store) where
  -- A chain is as its first handler's answer says.
  from : (p : ApiResult A) → h s ≡ p → Accepted P (continue f p) → Accepted P ((h >>= f) s)
  unfolding ◌>>=◌
  from p e = subst (λ q. Accepted P (continue f q)) (sym e)

require-some :
    {A : Type 0} (e : ApiError) (query : Store → Option A) (s : Store) (o : Option A)
    → query s ≡ o
    → require e query s ≡ elim o [ none ↦ (reject e s) | some a ↦ (accept a s) ]
unfolding require
require-some e query s o n = rw (require, n) refl

run_on :
    {A : Type 0} (call : Store → DbResult A) (s : Store) (r : DbResult A)
    → call s ≡ r
    → run call s ≡ elim r [ ok a t ↦ (accept a t) | err d ↦ (reject (of_error d) s) ]
unfolding run
run_on call s r n = rw (run, n) refl

module _ {B : Type 0} (P : B → Store → Type 0) where
  pub require-Accepted :
      {A : Type 0} (e : ApiError) (query : Store → Option A) (f : A → Handler B) (s : Store)
      → ((a : A) → query s ≡ some a → Accepted P (f a s))
      → Accepted P ((require e query >>= f) s)
  unfolding continue
  require-Accepted e query f s step = elim (Option-cases (query s)) [
    | inl n ↦ from P (require e query) f s (reject e s) (require-some e query s none n) tt
    | inr (a, n) ↦
        from P (require e query) f s (accept a s) (require-some e query s (some a) n) (step a n)
  ]

  pub guard-Accepted :
      (b : Bool) (e : ApiError) (f : Unit → Handler B) (s : Store)
      → (b ≡ false → Accepted P (f tt s))
      → Accepted P ((guard b e >>= f) s)
  unfolding guard ◌>>=◌ continue throw pure
  guard-Accepted true e f s step = tt
  guard-Accepted false e f s step = step refl

  pub run-Accepted :
      {A : Type 0} (call : Store → DbResult A) (f : A → Handler B) (s : Store)
      → ((a : A) (t : Store) → call s ≡ ok a t → Accepted P (f a t))
      → Accepted P ((run call >>= f) s)
  unfolding continue
  run-Accepted call f s step = go (call s) refl
    where
      go : (r : DbResult _) → call s ≡ r → Accepted P ((run call >>= f) s)
      go (ok a t) e = from P (run call) f s (accept a t) (run_on call s (ok a t) e) (step a t e)
      go (err d) e = from P (run call) f s (reject (of_error d) s) (run_on call s (err d) e) tt

  pub exec-Accepted :
      (change : Store → Store) (f : Unit → Handler B) (s : Store)
      → Accepted P (f tt (change s))
      → Accepted P ((exec change >>= f) s)
  unfolding exec ◌>>=◌ continue
  exec-Accepted change f s h = h

  pub returns :
      {A : Type 0} (a : A) (f : A → Handler B) (s : Store)
      → Accepted P (f a s)
      → Accepted P ((pure a >>= f) s)
  unfolding pure ◌>>=◌ continue
  returns a f s h = h

  pub returns_last : (a : B) (s : Store) → P a s → Accepted P (pure a s)
  unfolding pure
  returns_last a s h = h

  pub refused :
      {A : Type 0} (e : ApiError) (f : A → Handler B) (s : Store) → Accepted P ((throw e >>= f) s)
  unfolding throw ◌>>=◌ continue
  refused e f s = tt

  -- A chain associates.
  pub regroup :
      {A C : Type 0} (h : Handler A) (k : A → Handler C) (f : C → Handler B) (s : Store)
      → Accepted P ((h >>= λ a. (k a >>= f)) s)
      → Accepted P (((h >>= k) >>= f) s)
  unfolding ◌>>=◌ continue
  regroup h k f s = go (h s)
    where
      go :
          (p : ApiResult _)
          → Accepted P (continue (λ a t. continue f (k a t)) p)
          → Accepted P (continue f (continue k p))
      go (accept a t) x = x
      go (reject e t) x = tt

  pub require_admin-Accepted :
      (user team : ℕ) (f : Role → Handler B) (s : Store)
      → ((r : Role) → role_in_team user team s ≡ some r → is_admin r ≡ true → Accepted P (f r s))
      → Accepted P ((require_admin user team >>= f) s)
  unfolding require_admin membership
  require_admin-Accepted user team f s step = regroup (membership user team) _ f s (
      require-Accepted not_found (role_in_team user team) _ s (λ r n.
        regroup (guard (not (is_admin r)) forbidden) _ f s
          (guard-Accepted (not (is_admin r)) forbidden _ s (λ a. last r n (ground arith)))))
    where
      last :
          (r : Role)
          → role_in_team user team s ≡ some r
          → is_admin r ≡ true
          → Accepted P ((pure r >>= f) s)
      last r n a = returns r f s (step r n a)

module _ (P : Unit {0} → Store → Type 0) where
  pub exec_last :
      (change : Store → Store) (s : Store) → P tt (change s) → Accepted P (exec change s)
  unfolding exec
  exec_last change s h = h

pub accepted :
    {A : Type 0} (P : A → Store → Type 0) (r : ApiResult A) (a : A) (s : Store)
    → Accepted P r
    → r ≡ accept a s
    → P a s
accepted P r a s h e = subst (Accepted P) e h

pub not-false : (b : Bool) → not b ≡ false → b ≡ true
not-false true h = refl
not-false false h = cc
