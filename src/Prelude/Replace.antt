-- ===== src/Prelude/Replace.antt =====
-- Rust's `str::replace` and `rsplit_once`, and the length of a text in bytes.
use Prim.Native.Nat.{ℕ, zero, suc, ◌+◌, ◌-◌}
use mathlib.Core.List.{[], ◌∷◌, ◌++◌}
use mathlib.Core.Option.{Option, none, some}
use rustify.Prelude.Tests.{◌==◌, ltb, if◌then◌else◌}
use rustify.Prelude.Lists.{length}
use rustify.Prelude.Text.{Str, starts_with}

-- For a text `p` that is not empty; `skip` characters of an occurrence are left.
unfoldable pub replace_from : ℕ → Str → Str → Str → Str
unfolding starts_with
replace_from skip p r [] = []
replace_from (suc skip) p r (c ∷ s) = replace_from skip p r s
replace_from zero p r (c ∷ s) =
    let after = replace_from (length p - 1) p r s in
    let rest = replace_from zero p r s in if starts_with p (c ∷ s) then r ++ after else c ∷ rest

unfoldable pub replace : Str → Str → Str → Str
unfolding replace_from
replace p r s = replace_from 0 p r s

-- What stands before and after the last occurrence of a character.
unfoldable pub rsplit_once : ℕ → Str → Option (Str × Str)
rsplit_once sep [] = none
rsplit_once sep (c ∷ s) = elim (rsplit_once sep s) [
  | some q ↦ some (c ∷ q.0, q.1)
  | none ↦ if c == sep then some ([], s) else none
]

-- The number of bytes of a character in UTF-8.
abbrev utf8_width : ℕ → ℕ
utf8_width c = if ltb c 128 then 1 else if ltb c 2048 then 2 else if ltb c 65536 then 3 else 4

unfoldable pub byte_length : Str → ℕ
byte_length [] = 0
byte_length (c ∷ s) = utf8_width c + byte_length s
