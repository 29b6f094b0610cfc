-- ===== src/Deploy/Host/Keeps.antt =====
-- Predicates on a session that each step keeps.
use rustify.Prelude.{
  Bool, true, false, inl, inr, Option, none, some, ◌≡◌, Bool-cases, Option-cases, if◌then◌else◌,
}
use rustify.Deploy.Host.{World, Session, Step, continue, ◌>>=◌, lift, query, counted}

module _ {S : Type 0} (P : Session S → Type 0) where
  module _ {A B : Type 0} (f : A → Step S B) where
    pub continue_keeps :
        (r : Option A × Session S)
        → P r.1
        → ((a : A) (u : Session S) → P u → P (f a u).1)
        → P (continue f r).1
    unfolding continue
    continue_keeps (none, u) h next = h
    continue_keeps (some a, u) h next = next a u h

    pub bind_keeps :
        (m : Step S A) (t : Session S)
        → P (m t).1
        → ((a : A) (u : Session S) → P u → P (f a u).1)
        → P ((m >>= f) t).1
    unfolding ◌>>=◌
    bind_keeps m t h next = continue_keeps (m t) h next

  pub if_keeps :
      {A : Type 0} (b : Bool) (x y : A × Session S) → P x.1 → P y.1 → P (if b then x else y).1
  if_keeps true x y p q = p
  if_keeps false x y p q = q

  -- A SELECT, and a value at hand, before a step: what the step is given.
  module _ {A B : Type 0} (W : World) where
    pub query_keeps :
        (f : S → A) (g : A → Step S B) (t : Session S)
        → P (counted t)
        → P (g (f t.tables) (counted t)).1
        → P ((query W f >>= g) t).1
    unfolding query ◌>>=◌ continue
    query_keeps f g t h next = elim (Bool-cases (W.reaches t.statements)) [
      | inl e ↦ rw e next
      | inr e ↦ rw e h
    ]

  pub lift_keeps :
      {A B : Type 0} (o : Option A) (g : A → Step S B) (t : Session S)
      → P t
      → ((a : A) → o ≡ some a → P (g a t).1)
      → P ((lift o >>= g) t).1
  unfolding lift ◌>>=◌ continue
  lift_keeps o g t h next = elim (Option-cases o) [ inl e ↦ rw e h | inr (a, e) ↦ rw e (next a e) ]
