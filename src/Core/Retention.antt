-- ===== src/Core/Retention.antt =====
-- crates/rustify-core/src/retention.rs: which backup executions to delete. An instant is the
-- number of nanoseconds since the earliest instant that chrono represents.
pub mod Newest
pub mod Rules
pub mod Amount
pub mod Overflow
mod Tests
use rustify.Prelude.{
  ℕ, ◌+◌, ◌-◌, ◌*◌, ◌%◌, ◌^◌, Bool, true, false, not, ◌&&◌, ◌||◌, Option, none, some, List, [], ◌∷◌,
  ◌++◌, map, ◌==◌, ltb, leb, if◌then◌else◌, drop, filter, any, map_option,
}
use rustify.Prelude.Keyed.{Keyed}
use rustify.Prelude.Sort.{sort_by}
use rustify.Prelude.Int.{ℤ, pos_part}

pub record ExecMeta : Type 0 where
  pub id : ℕ
  pub created_at : ℕ
  pub size : ℤ

instance abbrev pub exec_keyed : Keyed ExecMeta
exec_keyed = record { key = λ e. e.id }

abbrev pub bytes_per_gb : ℕ
bytes_per_gb = 1024 * 1024 * 1024

abbrev pub day : ℕ
day = 86400 * 10 ^ 9

-- Newest first, ties broken by the larger id.
abbrev pub newer : ExecMeta → ExecMeta → Bool
newer a b = ltb b.created_at a.created_at || ((a.created_at == b.created_at) && ltb b.id a.id)

unfoldable pub sorted_newest : List ExecMeta → List ExecMeta
unfolding sort_by
sorted_newest = sort_by newer

-- HashSet<i64>
abbrev pub Marks : Type 0
Marks = List ℕ

abbrev pub ids : List ExecMeta → Marks
ids = map (λ e. e.id)

abbrev pub marks : Marks → ℕ → Bool
marks marked id = any (λ i. i == id) marked

-- Rule 1: keep the newest `amount`.
unfoldable pub amount_marks : ℕ → List ExecMeta → Marks
amount_marks amount sorted = if ltb 0 amount then ids (drop amount sorted) else []

-- Rule 2: older than `newest - days`. `none` is the panic of an instant before the earliest one.
unfoldable pub days_marks : ℕ → ExecMeta → List ExecMeta → Option Marks
days_marks days newest sorted =
    if ltb 0 days
    then (if ltb newest.created_at (days * day)
        then none
        else some (ids (filter (λ e. ltb e.created_at (newest.created_at - days * day)) sorted)))
    else some []

abbrev pub u64 : ℕ → ℕ
u64 n = n % 2 ^ 64

-- Rule 3, the loop from the second newest: the execution at which the running total, an unsigned
-- 64-bit integer, passes the cap.
unfoldable pub crossing : ℕ → ℕ → List ExecMeta → Option ExecMeta
crossing max_bytes total [] = none
crossing max_bytes total (e ∷ es) =
    let total' = u64 (total + pos_part e.size) in
    let rest = crossing max_bytes total' es in if ltb max_bytes total' then some e else rest

-- Everything at or before the crossing one's time, less the first of that group.
abbrev pub past_crossing : List ExecMeta → Option ExecMeta → Marks
past_crossing sorted none = []
past_crossing sorted (some c) = ids (drop 1 (filter (λ e. leb e.created_at c.created_at) sorted))

unfoldable pub gb_marks : ℕ → List ExecMeta → Marks
unfolding crossing
gb_marks max_gb sorted =
    if ltb 0 max_gb
    then past_crossing sorted (crossing (max_gb * bytes_per_gb) 0 (drop 1 sorted))
    else []

-- The union in newest-first order, the newest protected.
abbrev pub selected : ExecMeta → Marks → List ExecMeta → List ℕ
selected newest marked sorted =
    ids (filter (λ e. not (e.id == newest.id) && marks marked e.id) sorted)

unfoldable pub select_sorted : ℕ → ℕ → ℕ → List ExecMeta → Option (List ℕ)
unfolding amount_marks days_marks gb_marks
select_sorted amount days max_gb [] = some []
select_sorted amount days max_gb (newest ∷ rest) =
    let sorted = newest ∷ rest in
    map_option
      (λ by_days.
        selected newest (amount_marks amount sorted ++ (by_days ++ gb_marks max_gb sorted)) sorted)
      (days_marks days newest sorted)

-- `none` is a panic.
unfoldable pub select_for_deletion : List ExecMeta → ℕ → ℕ → ℕ → Option (List ℕ)
unfolding sorted_newest select_sorted
select_for_deletion execs amount days max_gb =
    if (amount == 0) && ((days == 0) && (max_gb == 0))
    then some []
    else select_sorted amount days max_gb (sorted_newest execs)
