-- ===== src/Deploy/Backup/Cron.antt =====
-- crates/rustify-deploy/src/backup.rs: the cron expressions of backup schedules.
use rustify.Prelude.{
  ℕ, ◌-◌, ◌%◌, ◌^◌, Bool, true, false, ◌&&◌, ◌||◌, Option, none, some, List, [], ◌∷◌, ◌++◌, Str,
  str_eq, codes, ◌==◌, ltb, leb, any, if◌then◌else◌,
}
use rustify.Prelude.Chars.{is_whitespace, trim, split, split_once}
use rustify.Prelude.Int.{parse_u32}

-- What chrono reads off the instant, in UTC.
pub record Clock : Type 0 where
  pub minute : ℕ
  pub hour : ℕ
  pub day : ℕ
  pub month : ℕ
  pub weekday : ℕ  -- from Sunday

abbrev pub u32_max : ℕ
u32_max = 2 ^ 32 - 1

unfoldable pub expand_macro : Str → Str
unfolding str_eq
expand_macro expr =
    if str_eq expr (codes "@yearly") || str_eq expr (codes "@annually")
    then codes "0 0 1 1 *"
    else if str_eq expr (codes "@monthly")
    then codes "0 0 1 * *"
    else if str_eq expr (codes "@weekly")
    then codes "0 0 * * 0"
    else if str_eq expr (codes "@daily") || str_eq expr (codes "@midnight")
    then codes "0 0 * * *"
    else if str_eq expr (codes "@hourly")
    then codes "0 * * * *"
    else if str_eq expr (codes "@every_minute")
    then codes "* * * * *"
    else expr

-- Two bounds, both of which have to be numbers.
abbrev pub both : Option ℕ → Option ℕ → Option (ℕ × ℕ)
both (some a) (some b) = some (a, b)
both _ _ = none

-- The range that is stepped through; a single number starts one that is open.
unfoldable pub stepped_range : Str → Option (ℕ × ℕ)
unfolding str_eq split_once parse_u32
stepped_range spec =
    if str_eq spec (codes "*") then some (0, u32_max) else (elim (split_once (λ c. c == 45) spec) [
      | some q ↦ both (parse_u32 q.0) (parse_u32 q.1)
      | none ↦ both (parse_u32 spec) (some u32_max)
    ])

-- Without a step a single number stands for itself.
unfoldable pub plain_range : Str → Option (ℕ × ℕ)
unfolding str_eq split_once parse_u32
plain_range spec =
    if str_eq spec (codes "*") then some (0, u32_max) else (elim (split_once (λ c. c == 45) spec) [
      | some q ↦ both (parse_u32 q.0) (parse_u32 q.1)
      | none ↦ both (parse_u32 spec) (parse_u32 spec)
    ])

abbrev pub within : Option (ℕ × ℕ) → ℕ → Bool
within none value = false
within (some (lo, hi)) value = leb lo value && leb value hi

abbrev pub steps_to : ℕ → Option (ℕ × ℕ) → ℕ → Bool
steps_to step none value = false
steps_to step (some (lo, hi)) value = (leb lo value && leb value hi) && ((value - lo) % step == 0)

-- A step that is no number counts as none.
unfoldable pub part_matches_raw : Str → ℕ → Bool
unfolding stepped_range plain_range split_once parse_u32
part_matches_raw part value = elim (split_once (λ c. c == 47) part) [
  | none ↦ within (plain_range part) value
  | some q ↦ elim (parse_u32 q.1) [
    | none ↦ within (plain_range q.0) value
    | some step ↦ if ltb 0 step then steps_to step (stepped_range q.0) value else false
  ]
]

-- Sunday is both 0 and 7.
unfoldable pub part_matches : Str → ℕ → Bool → Bool
unfolding part_matches_raw
part_matches part value is_weekday =
    (is_weekday && (value == 0) && part_matches_raw part 7) || part_matches_raw part value

unfoldable pub field_matches : Str → ℕ → Bool → Bool
unfolding part_matches split
field_matches field value is_weekday =
    any (λ part. part_matches part value is_weekday) (split 44 field)

-- `split_whitespace`: the pieces between blanks that are not empty.
abbrev pub cons_piece : Str → List Str → List Str
cons_piece [] ps = ps
cons_piece (c ∷ p) ps = (c ∷ p) ∷ ps

pub pieces : Str → Str → List Str
unfolding is_whitespace
pieces piece [] = cons_piece piece []
pieces piece (c ∷ s) =
    let ends = cons_piece piece (pieces [] s) in
    let goes_on = pieces (piece ++ c ∷ []) s in if is_whitespace c then ends else goes_on

unfoldable pub split_whitespace : Str → List Str
unfolding pieces
split_whitespace s = pieces [] s

abbrev pub fields_match : List Str → Clock → Bool
fields_match (minute ∷ hour ∷ day ∷ month ∷ weekday ∷ []) c =
    field_matches minute c.minute false
    && field_matches hour c.hour false
    && field_matches day c.day false
    && field_matches month c.month false
    && field_matches weekday c.weekday true
fields_match _ c = false

unfoldable pub cron_is_due : Str → Clock → Bool
unfolding expand_macro split_whitespace field_matches trim
cron_is_due expr c = fields_match (split_whitespace (expand_macro (trim expr))) c
