-- ===== src/Ssh/Command/Cut.antt =====
-- What `script.replace(&delim, "")` leaves of a script.
use rustify.Prelude.{
  ℕ, Bool, true, false, ◌&&◌, ◌≡◌, refl, ap, sym, subst, [], ◌∷◌, ◌++◌, Str, starts_with, arith,
  inl, inr, Bool-cases, ◌==◌, length,
}
use rustify.Ssh.Command.{remove_from, remove}

-- From the left, each occurrence of a text is cut out, and each character where none begins is kept.
pub data Cut (d : Str) : Str → Str → Type 0 where
  ends : Cut d [] []
  keeps : (c : ℕ) {s t : Str} → starts_with d (c ∷ s) ≡ false → Cut d s t → Cut d (c ∷ s) (c ∷ t)
  cuts : {s t : Str} → Cut d s t → Cut d (d ++ s) t

abbrev rest_of : Str → Str
rest_of [] = []
rest_of (c ∷ s) = s

both : (a b : Bool) → (a && b) ≡ true → (a ≡ true) × (b ≡ true)
both a b h = ground arith

starts_split : (p s : Str) → starts_with p s ≡ true → (r : Str) × (s ≡ p ++ r)
unfolding starts_with
starts_split [] s h = (s, refl)
starts_split (a ∷ p) [] h = cc
starts_split (a ∷ p) (b ∷ s) h =
    let (e, t) = both (a == b) (starts_with p s) h in
    let (r, q) = starts_split p s t in
    let same : a ≡ b = ground (arith, e) in (r, rw (q, same) refl)

-- The characters that are to be passed over are those of `u`.
remove_from-Cut :
    (x : ℕ) (d u r s : Str) → s ≡ u ++ r → Cut (x ∷ d) r (remove_from (x ∷ d) (length u) s)
unfolding remove_from
remove_from-Cut x d [] r [] h = subst (λ t. Cut (x ∷ d) t []) h ends
remove_from-Cut x d (a ∷ u) r [] h = cc
remove_from-Cut x d (a ∷ u) r (c ∷ s) h = remove_from-Cut x d u r s (ap rest_of h)
remove_from-Cut x d [] r (c ∷ s) h =
    subst (λ t. Cut (x ∷ d) t (remove_from (x ∷ d) 0 (c ∷ s))) h
      (elim (Bool-cases (starts_with (x ∷ d) (c ∷ s))) [
        | inr e ↦ rw (remove_from, e) (keeps c e (remove_from-Cut x d [] s s refl))
        | inl e ↦
            let (r', q) = starts_split (x ∷ d) (c ∷ s) e in
            rw (remove_from, e)
              (subst (λ t. Cut (x ∷ d) t (remove_from (x ∷ d) (length d) s)) (sym q)
                (cuts (remove_from-Cut x d d r' s (ap rest_of q))))
      ])

pub remove-Cut : (x : ℕ) (d s : Str) → Cut (x ∷ d) s (remove (x ∷ d) s)
remove-Cut x d s = remove_from-Cut x d [] s s refl
