-- ===== src/Deploy/BuildServer.antt =====
-- crates/rustify-deploy/src/build_server.rs: where an image is built, and its name.
pub mod Plan
use rustify.Prelude.{
  ℕ, Bool, true, false, not, Option, none, some, List, [], ◌∷◌, ◌++◌, Str, str_eq, codes, any, ◌==◌,
  if◌then◌else◌,
}
use rustify.Prelude.Chars.{trim}

abbrev tag_or_latest : Option Str → Str
tag_or_latest none = codes "latest"
tag_or_latest (some t) = if str_eq (trim t) [] then codes "latest" else trim t

unfoldable pub registry_image_ref : Str → Option Str → Option Str
unfolding trim str_eq
registry_image_ref name tag =
    if str_eq (trim name) [] then none else some (trim name ++ codes ":" ++ tag_or_latest tag)

unfoldable pub push_image_command : Str → Str
push_image_command image_ref = codes "docker push " ++ image_ref

unfoldable pub pull_image_command : Str → Str
pull_image_command image_ref = codes "docker pull " ++ image_ref

pub record BuildTargets : Type 0 where
  pub build_server_id : ℕ
  pub deploy_server_id : ℕ
  pub use_build_server : Bool

unfoldable pub plan_build_targets : ℕ → Option ℕ → List ℕ → BuildTargets
plan_build_targets deploy none available = record {
  build_server_id = deploy;
  deploy_server_id = deploy;
  use_build_server = false;
}
plan_build_targets deploy (some pinned) [] = record {
  build_server_id = deploy;
  deploy_server_id = deploy;
  use_build_server = false;
}
plan_build_targets deploy (some pinned) (a ∷ rest) =
    let build = if any (λ b. b == pinned) (a ∷ rest) then pinned else a in
    record {
      build_server_id = build;
      deploy_server_id = deploy;
      use_build_server = not (build == deploy);
    }
