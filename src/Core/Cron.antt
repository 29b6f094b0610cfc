-- ===== src/Core/Cron.antt =====
-- crates/rustify-core/src/cron.rs: the aliases of schedules, and when one is due. `matching` is the
-- parser and matcher of the croner crate in a time zone: `none` where the expression does not parse.
use rustify.Prelude.{
  ℕ, ◌-◌, ◌*◌, ◌%◌, ◌^◌, Bool, false, Option, none, some, List, [], ◌∷◌, Str, str_eq, codes,
  if◌then◌else◌,
}

abbrev pub valid_cron_strings : List (Str × Str)
valid_cron_strings =
    (codes "every_minute", codes "* * * * *")
    ∷ (codes "hourly", codes "0 * * * *")
    ∷ (codes "daily", codes "0 0 * * *")
    ∷ (codes "weekly", codes "0 0 * * 0")
    ∷ (codes "monthly", codes "0 0 1 * *")
    ∷ (codes "yearly", codes "0 0 1 1 *")
    ∷ (codes "@hourly", codes "0 * * * *")
    ∷ (codes "@daily", codes "0 0 * * *")
    ∷ (codes "@weekly", codes "0 0 * * 0")
    ∷ (codes "@monthly", codes "0 0 1 * *")
    ∷ (codes "@yearly", codes "0 0 1 1 *")
    ∷ []

abbrev alias_in : Str → List (Str × Str) → Str
alias_in frequency [] = frequency
alias_in frequency ((alias, cron) ∷ rest) =
    let later = alias_in frequency rest in if str_eq alias frequency then cron else later

unfoldable pub resolve_alias : Str → Str
unfolding str_eq
resolve_alias frequency = alias_in frequency valid_cron_strings

abbrev due_at : Option (ℕ → Bool) → ℕ → Bool
due_at none t = false
due_at (some matches) t = matches t

-- The instant is taken at the start of its minute.
unfoldable pub is_due : (Str → Option (ℕ → Bool)) → Str → ℕ → Bool
unfolding resolve_alias
is_due matching frequency now =
    due_at (matching (resolve_alias frequency)) (now - now % (60 * 10 ^ 9))
