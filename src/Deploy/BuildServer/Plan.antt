-- ===== src/Deploy/BuildServer/Plan.antt =====
-- What the choice of a build server promises to the deployment.
use rustify.Prelude.{
  Bool, true, false, ℕ, true, false, not, Option, none, some, List, [], ◌∷◌, any, ◌==◌, ==_iff, ◌≡◌,
  ◌⊎◌, inl, inr, refl, sym, In, arith, Bool-cases, if◌then◌else◌,
}
use rustify.Deploy.BuildServer.{plan_build_targets}

any_of_id : (n : ℕ) (xs : List ℕ) → any (λ b. b == n) xs ≡ true → In n xs
any_of_id n [] h = cc
any_of_id n (x ∷ xs) h = elim (Bool-cases (x == n)) [
  | inl e ↦ inl ((==_iff x n).0 e)
  | inr e ↦ inr (any_of_id n xs (ground (arith, e)))
]

==_self : (n : ℕ) → not (n == n) ≡ false
==_self n = ground arith

chosen :
    (b : Bool) (n a : ℕ) (xs : List ℕ) → (b ≡ true → In n xs) → In a xs → In (if b then n else a) xs
chosen true n a xs h i = h refl
chosen false n a xs h i = i

chosen-In :
    (n a : ℕ) (rest : List ℕ) → In (if any (λ b. b == n) (a ∷ rest) then n else a) (a ∷ rest)
chosen-In n a rest =
    chosen (any (λ b. b == n) (a ∷ rest)) n a (a ∷ rest) (any_of_id n (a ∷ rest)) (inl refl)

-- The image goes by a registry exactly if it is built on another server than the one that it is
-- deployed to, which is the given one; and the server that builds is that one or an available one.
pub plan_build_targets-In :
    (deploy : ℕ) (pinned : Option ℕ) (available : List ℕ)
    → let p = plan_build_targets deploy pinned available in
      (p.deploy_server_id ≡ deploy)
      × (p.use_build_server ≡ not (p.build_server_id == p.deploy_server_id))
      × ((p.build_server_id ≡ deploy) ⊎ In p.build_server_id available)
unfolding plan_build_targets
plan_build_targets-In deploy none available = (refl, sym (==_self deploy), inl refl)
plan_build_targets-In deploy (some pinned) [] = (refl, sym (==_self deploy), inl refl)
plan_build_targets-In deploy (some pinned) (a ∷ rest) = (refl, refl, inr (chosen-In pinned a rest))
