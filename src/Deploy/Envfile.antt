-- ===== src/Deploy/Envfile.antt =====
-- crates/rustify-deploy/src/envfile.rs: the environment of a build, and that of a container.
pub mod Precedence
pub mod Reading
mod Tests
use rustify.Prelude.{
  ℕ, Bool, true, false, ◌||◌, List, [], ◌∷◌, ◌++◌, Str, str_eq, codes, starts_with, any,
  if◌then◌else◌, ◌==◌,
}
use rustify.Prelude.Chars.{replace_char}
use rustify.Prelude.Shell.{is_special, escape_special}

abbrev pub Pairs : Type 0
Pairs = List (Str × Str)

-- The layers, lowest first.
pub record BuildEnvLayers : Type 0 where
  pub nixpacks : Pairs
  pub rustify : Pairs
  pub service : Pairs
  pub user_buildtime : Pairs

-- The first pair with the key is overwritten, else one is added at the end.
unfoldable pub upsert : Pairs → Str → Str → Pairs
unfolding str_eq
upsert [] key value = (key, value) ∷ []
upsert (p ∷ ps) key value =
    let rest = upsert ps key value in if str_eq p.0 key then (p.0, value) ∷ ps else p ∷ rest

-- `for (k, v) in … { upsert(&mut out, k, v) }`
unfoldable pub upsert_all : Pairs → Pairs → Pairs
unfolding upsert
upsert_all out [] = out
upsert_all out (p ∷ ps) = upsert_all (upsert out p.0 p.1) ps

-- The keys that the nixpacks layer may not set.
unfoldable pub is_reserved : Str → Bool
unfolding starts_with
is_reserved k =
    starts_with (codes "RUSTIFY_") k
    || (starts_with (codes "COOLIFY_") k || starts_with (codes "SERVICE_") k)

unfoldable pub upsert_nixpacks : Pairs → Pairs → Pairs
unfolding upsert is_reserved
upsert_nixpacks out [] = out
upsert_nixpacks out (p ∷ ps) =
    upsert_nixpacks (if is_reserved p.0 then out else upsert out p.0 p.1) ps

unfoldable pub merge_build_env : BuildEnvLayers → Pairs
unfolding upsert_all upsert_nixpacks
merge_build_env l =
    upsert_all (upsert_all (upsert_all (upsert_nixpacks [] l.nixpacks) l.rustify) l.service)
      l.user_buildtime

unfoldable pub bash_double_quote : Str → Str
unfolding escape_special
bash_double_quote value = 34 ∷ (escape_special value ++ 34 ∷ [])

unfoldable pub render_build_lines : Pairs → Str
unfolding bash_double_quote
render_build_lines [] = []
render_build_lines (p ∷ ps) = p.0 ++ 61 ∷ (bash_double_quote p.1 ++ 10 ∷ render_build_lines ps)

unfoldable pub render_build_env : BuildEnvLayers → Str
unfolding merge_build_env render_build_lines
render_build_env layers = render_build_lines (merge_build_env layers)

abbrev pub is_line_break : ℕ → Bool
is_line_break c = (c == 10) || (c == 13)

unfoldable pub render_runtime_env : Pairs → Str
unfolding replace_char
render_runtime_env [] = []
render_runtime_env (p ∷ ps) =
    p.0 ++ 61 ∷ (replace_char is_line_break (codes " ") p.1 ++ 10 ∷ render_runtime_env ps)
