-- ===== src/Core/Webhook/Gate.antt =====
-- How the two tests for a skip marker relate.
use rustify.Prelude.{
  Bool, true, false, not, ◌&&◌, ◌||◌, Option, List, [], ◌∷◌, Str, str_eq, any, all, filter, length,
  ◌==◌, ◌≡◌, refl, arith, inl, inr, Bool-cases,
}
use rustify.Prelude.Chars.{trim}
use rustify.Core.Webhook.{flatten, contains_skip, should_skip_deploy_any, should_skip_deploy_all}

all-any :
    {A : Type 0} (p q : A → Bool) (xs : List A)
    → not (length (filter p xs) == 0) ≡ true
    → all q (filter p xs) ≡ true
    → any q xs ≡ true
all-any p q [] n h = ground (arith, n)
all-any p q (x ∷ xs) n h = elim (Bool-cases (p x)) [
  | inl e ↦ first (q x) (any q xs) (kept p q x xs e h)
  | inr e ↦ second (q x) (any q xs) (all-any p q xs (dropped p x xs e n) (dropped_all p q x xs e h))
]
  where
    first : (a b : Bool) → a ≡ true → (a || b) ≡ true
    first a b t = rw t refl

    second : (a b : Bool) → b ≡ true → (a || b) ≡ true
    second a b t = ground arith

    kept :
        {A : Type 0} (p q : A → Bool) (x : A) (xs : List A)
        → p x ≡ true
        → all q (filter p (x ∷ xs)) ≡ true
        → q x ≡ true
    kept p q x xs e h = ground (arith, e, h)

    dropped :
        {A : Type 0} (p : A → Bool) (x : A) (xs : List A)
        → p x ≡ false
        → not (length (filter p (x ∷ xs)) == 0) ≡ true
        → not (length (filter p xs) == 0) ≡ true
    dropped p x xs e h = ground (arith, e, h)

    dropped_all :
        {A : Type 0} (p q : A → Bool) (x : A) (xs : List A)
        → p x ≡ false
        → all q (filter p (x ∷ xs)) ≡ true
        → all q (filter p xs) ≡ true
    dropped_all p q x xs e h = ground (arith, e, h)

both : (a b : Bool) → (a && b) ≡ true → (a ≡ true) × (b ≡ true)
both true true h = (refl, refl)
both true false h = cc
both false b h = cc

-- Messages that skip a push as a whole, all of them marked, also skip by the test for any mark.
pub should_skip_deploy_all-any :
    (messages : List (Option Str))
    → should_skip_deploy_all messages ≡ true
    → should_skip_deploy_any messages ≡ true
unfolding should_skip_deploy_all should_skip_deploy_any
should_skip_deploy_all-any messages h =
    let (n, a) = both _ _ h in
    all-any (λ m. not (str_eq (trim m) [])) contains_skip (flatten messages) n a
