-- ===== src/Core/Retention/Tests.antt =====
-- Runs of the retention rules, and the theorems at concrete inputs.
use rustify.Prelude.{ℕ, ◌*◌, ◌≡◌, refl, none, some, List, [], ◌∷◌, arith, drop, inl, inr}
use rustify.Prelude.Int.{pos}
use rustify.Core.Retention.{
  ExecMeta, bytes_per_gb, day, ids, sorted_newest, crossing, select_for_deletion,
}
use rustify.Core.Retention.Newest.{HasNewer, select_for_deletion-HasNewer}
use rustify.Core.Retention.Rules.{Union, select_for_deletion-Union}
use rustify.Core.Retention.Amount.{select_amount_alone}
use rustify.Core.Retention.Overflow.{crossing_exact, crossing-eq_exact}

abbrev backup : ℕ → ℕ → ExecMeta
backup id at = record { id = id; created_at = at * day; size = pos bytes_per_gb }

-- Given in no order: days 100 down to 96, a gigabyte each.
abbrev sample : List ExecMeta
sample = backup 2 98 ∷ backup 0 100 ∷ backup 4 96 ∷ backup 1 99 ∷ backup 3 97 ∷ []

keeps_two : select_for_deletion sample 2 0 0 ≡ some (2 ∷ 3 ∷ 4 ∷ [])
unfolding select_for_deletion
keeps_two = refl

keeps_three_days : select_for_deletion sample 0 3 0 ≡ some (4 ∷ [])
unfolding select_for_deletion
keeps_three_days = refl

-- A cap of one gigabyte is passed at the third newest, which is kept.
keeps_one_gb : select_for_deletion sample 0 0 1 ≡ some (3 ∷ 4 ∷ [])
unfolding select_for_deletion
keeps_one_gb = refl

too_many_days : select_for_deletion sample 0 101 0 ≡ none
unfolding select_for_deletion
too_many_days = refl

-- At equal times the crossing execution itself is deleted: the total passes the cap at 1.
abbrev tied : List ExecMeta
tied = backup 3 50 ∷ backup 2 40 ∷ backup 1 40 ∷ []

tie_deletes_crossing : select_for_deletion tied 0 0 1 ≡ some (1 ∷ [])
unfolding select_for_deletion
tie_deletes_crossing = refl

select_for_deletion-HasNewer_example : HasNewer sample 3
select_for_deletion-HasNewer_example =
    select_for_deletion-HasNewer sample 2 0 0 (2 ∷ 3 ∷ 4 ∷ []) 3 keeps_two (inr (inl refl))

select_for_deletion-Union_example : Union sample 2 0 0 (2 ∷ 3 ∷ 4 ∷ [])
select_for_deletion-Union_example =
    select_for_deletion-Union sample 2 0 0 (2 ∷ 3 ∷ 4 ∷ []) keeps_two

select_amount_alone_example :
    select_for_deletion sample 2 0 0 ≡ some (ids (drop 2 (sorted_newest sample)))
select_amount_alone_example = select_amount_alone sample 1 (omega arith)

crossing-eq_exact_example :
    crossing (1 * bytes_per_gb) 0 sample ≡ crossing_exact (1 * bytes_per_gb) 0 sample
crossing-eq_exact_example = crossing-eq_exact 1 sample (omega arith) (omega arith)
