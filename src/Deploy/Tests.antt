-- ===== src/Deploy/Tests.antt =====
-- Runs of the choice of containers and of build servers.
use rustify.Prelude.{true, some, List, [], ◌∷◌, ◌++◌, Str, codes, ◌≡◌, refl}
use rustify.Prelude.Shell.{bare, read_word}
use rustify.Deploy.ScheduledTask.{docker_exec_command, ok, resolve_container}
use rustify.Deploy.ScheduledTask.Choice.{docker_exec_command-read_word}
use rustify.Deploy.BuildServer.{BuildTargets, plan_build_targets, registry_image_ref}

image :
    registry_image_ref (codes " ghcr.io/a ") (some (codes " ")) ≡ some (codes "ghcr.io/a:latest")
unfolding registry_image_ref
image = refl

abbrev running : List Str
running = codes "db-u1" ∷ codes "web-u1-x" ∷ []

web : resolve_container running (some (codes " web ")) (codes "u1") ≡ ok (codes "web-u1-x")
unfolding resolve_container
web = refl

docker_exec_command-read_word_example :
    (word : Str) × (docker_exec_command (codes "web") (codes "echo 'a'")
      ≡ codes "docker exec " ++ codes "web" ++ codes " sh -c " ++ word)
    × (read_word bare word ≡ some (codes "echo 'a'", []))
docker_exec_command-read_word_example =
    docker_exec_command-read_word (codes "web") (codes "echo 'a'")

abbrev plan : BuildTargets
plan = record { build_server_id = 4; deploy_server_id = 1; use_build_server = true }

planned : plan_build_targets 1 (some 9) (4 ∷ 5 ∷ []) ≡ plan
unfolding plan_build_targets
planned = refl
