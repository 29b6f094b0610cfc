-- ===== src/Prelude/Chars.antt =====
-- Characters, and the operations of Rust's `char` and `str` that look at them.
use Prim.Native.Nat.{ℕ, ◌+◌, ◌-◌}
use mathlib.Core.Bool.{Bool, ◌&&◌, ◌||◌}
use mathlib.Core.List.{List, [], ◌∷◌, ◌++◌, map}
use mathlib.Core.Option.{Option, none, some}
use rustify.Prelude.Tests.{◌==◌, leb, if◌then◌else◌}
use rustify.Prelude.Text.{Str, str_eq}

-- `char::is_whitespace`: Unicode White_Space.
unfoldable pub is_whitespace : ℕ → Bool
is_whitespace c =
    ((leb 9 c && leb c 13) || (c == 32))
    || (((c == 133) || (c == 160))
        || ((c == 5760)
            || ((leb 8192 c && leb c 8202)
                || (((c == 8232) || (c == 8233))
                    || ((c == 8239) || ((c == 8287) || (c == 12288)))))))

-- `trim_start_matches`, `trim_end_matches` and `trim_matches` with a test.
unfoldable pub trim_start_by : (ℕ → Bool) → Str → Str
trim_start_by p [] = []
trim_start_by p (c ∷ s) = let rest = trim_start_by p s in if p c then rest else c ∷ s

unfoldable pub trim_end_by : (ℕ → Bool) → Str → Str
trim_end_by p [] = []
trim_end_by p (c ∷ s) = elim (trim_end_by p s) [
  | [] ↦ if p c then [] else c ∷ []
  | d ∷ t ↦ c ∷ d ∷ t
]

unfoldable pub trim_matches : (ℕ → Bool) → Str → Str
unfolding trim_start_by trim_end_by
trim_matches p s = trim_end_by p (trim_start_by p s)

unfoldable pub trim : Str → Str
unfolding trim_matches is_whitespace
trim = trim_matches is_whitespace

unfoldable pub ascii_lower : ℕ → ℕ
ascii_lower c = if leb 65 c && leb c 90 then c + 32 else c

unfoldable pub ascii_upper : ℕ → ℕ
ascii_upper c = if leb 97 c && leb c 122 then c - 32 else c

unfoldable pub eq_ignore_ascii_case : Str → Str → Bool
unfolding str_eq ascii_lower
eq_ignore_ascii_case a b = str_eq (map ascii_lower a) (map ascii_lower b)

abbrev pub is_digit : ℕ → Bool
is_digit c = leb 48 c && leb c 57

abbrev pub is_alphanumeric : ℕ → Bool
is_alphanumeric c = is_digit c || ((leb 65 c && leb c 90) || (leb 97 c && leb c 122))

-- `s.split_once(c)` at the first character that passes the test.
unfoldable pub split_once : (ℕ → Bool) → Str → Option (Str × Str)
split_once p [] = none
split_once p (c ∷ s) =
    let rest = split_once p s in
    if p c then some ([], s) else elim rest [ none ↦ none | some q ↦ some (c ∷ q.0, q.1) ]

-- `s.split(c)`: at least one piece.
unfoldable pub split : ℕ → Str → List Str
split sep [] = [] ∷ []
split sep (c ∷ s) =
    let rest = split sep s in
    if c == sep then [] ∷ rest else elim rest [ [] ↦ (c ∷ []) ∷ [] | p ∷ ps ↦ (c ∷ p) ∷ ps ]

-- `s.replace(c, r)` for a character `c`.
unfoldable pub replace_char : (ℕ → Bool) → Str → Str → Str
replace_char p r [] = []
replace_char p r (c ∷ s) = let rest = replace_char p r s in if p c then r ++ rest else c ∷ rest
