-- ===== src/Core/Status.antt =====
-- crates/rustify-core/src/deployment.rs: the deployment state machine.
use rustify.Prelude.{◌≡◌, Bool, true, false, List, [], ◌∷◌, arith}

pub data DeploymentStatus : Type 0 where
  queued in_progress finished failed cancelled : DeploymentStatus

pub data BuildPack : Type 0 where
  nixpacks dockerfile static docker_image docker_compose railpack : BuildPack

unfoldable pub is_terminal : DeploymentStatus → Bool
is_terminal finished = true
is_terminal failed = true
is_terminal cancelled = true
is_terminal _ = false

-- The only legality check.
unfoldable pub can_transition_to : DeploymentStatus → DeploymentStatus → Bool
can_transition_to queued in_progress = true
can_transition_to queued cancelled = true
can_transition_to in_progress finished = true
can_transition_to in_progress failed = true
can_transition_to in_progress cancelled = true
can_transition_to _ _ = false

-- `==` of the derived `PartialEq`.
unfoldable pub status_eq : DeploymentStatus → DeploymentStatus → Bool
status_eq queued queued = true
status_eq in_progress in_progress = true
status_eq finished finished = true
status_eq failed failed = true
status_eq cancelled cancelled = true
status_eq _ _ = false

pub status_eq_sound : (a b : DeploymentStatus) → status_eq a b ≡ true → a ≡ b
unfolding status_eq
status_eq_sound queued b h = ground arith
status_eq_sound in_progress b h = ground arith
status_eq_sound finished b h = ground arith
status_eq_sound failed b h = ground arith
status_eq_sound cancelled b h = ground arith

abbrev pub all_statuses : List DeploymentStatus
all_statuses = queued ∷ in_progress ∷ finished ∷ failed ∷ cancelled ∷ []
