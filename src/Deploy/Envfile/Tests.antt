-- ===== src/Deploy/Envfile/Tests.antt =====
-- An environment in which every layer speaks of the same variable.
use rustify.Prelude.{none, some, [], ◌∷◌, ◌++◌, codes, if◌then◌else◌, ◌≡◌, refl}
use rustify.Prelude.Shell.{bare, read_word}
use rustify.Deploy.Envfile.{
  BuildEnvLayers, is_reserved, merge_build_env, bash_double_quote, render_build_env,
}
use rustify.Deploy.Envfile.Precedence.{lookup, last_value, or_else, lookup-merge_build_env}
use rustify.Deploy.Envfile.Reading.{read_word-bash_double_quote}

abbrev layers : BuildEnvLayers
layers = record {
  nixpacks = (codes "SERVICE_A", codes "1") ∷ (codes "PORT", codes "80") ∷ [];
  rustify = (codes "RUSTIFY_B", codes "2") ∷ [];
  service = [];
  user_buildtime = (codes "PORT", codes "$3") ∷ [];
}

merged : merge_build_env layers ≡ (codes "PORT", codes "$3") ∷ (codes "RUSTIFY_B", codes "2") ∷ []
unfolding merge_build_env
merged = refl

rendered : render_build_env layers ≡ codes "PORT=\"\\$3\"\nRUSTIFY_B=\"2\"\n"
unfolding render_build_env
rendered = refl

lookup-merge_build_env_example :
    lookup (codes "PORT") (merge_build_env layers)
    ≡ or_else (last_value (codes "PORT") layers.user_buildtime) (
        or_else (last_value (codes "PORT") layers.service) (
          or_else (last_value (codes "PORT") layers.rustify) (
            if is_reserved (codes "PORT")
            then none
            else last_value (codes "PORT") layers.nixpacks)))
lookup-merge_build_env_example = lookup-merge_build_env (codes "PORT") layers

read_word-bash_double_quote_example :
    read_word bare (bash_double_quote (codes "a \"$b\" `c`") ++ 10 ∷ [])
    ≡ some (codes "a \"$b\" `c`", 10 ∷ [])
read_word-bash_double_quote_example = read_word-bash_double_quote (codes "a \"$b\" `c`") []
