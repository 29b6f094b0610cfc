-- ===== src/Core/Retention/Newest.antt =====
-- Nothing that is deleted is the newest: there is always a newer execution than it.
use rustify.Prelude.{
  ℕ, ◌≡◌, ◌≢◌, refl, sym, ap, subst, ◌∙◌, inl, inr, ◌↔◌, true, false, not, ◌&&◌, some, List, [],
  ◌∷◌, ◌++◌, map_option, arith, ◌==◌, filter, Bool-cases, Option-cases, All-In, In, In-filter,
}
use mathlib.Core.Option.{some-injective}
use rustify.Prelude.Sort.{In-sort_by, sort_by-IsSorted, IsSorted}
use rustify.Core.Retention.{
  ExecMeta, newer, sorted_newest, Marks, ids, marks, days_marks, amount_marks, gb_marks, selected,
  select_sorted, select_for_deletion,
}

newer_asym : (a b : ExecMeta) → newer a b ≡ true → newer b a ≡ false
newer_asym a b h = ground arith

newer_negative : (a b c : ExecMeta) → newer a b ≡ false → newer b c ≡ false → newer a c ≡ false
newer_negative a b c h k = ground arith

newer_total : (a b : ExecMeta) → newer b a ≡ false → a.id ≢ b.id → newer a b ≡ true
newer_total a b h n = ground arith

pub sorted_newest-IsSorted : (execs : List ExecMeta) → IsSorted newer (sorted_newest execs)
unfolding sorted_newest
sorted_newest-IsSorted execs = sort_by-IsSorted newer newer_asym newer_negative execs

pub In-sorted_newest :
    (e : ExecMeta) (execs : List ExecMeta) → In e (sorted_newest execs) ↔ In e execs
unfolding sorted_newest
In-sorted_newest e execs = In-sort_by newer e execs

pub In-ids : (x : ℕ) (es : List ExecMeta) → In x (ids es) → (e : ExecMeta) × In e es × (e.id ≡ x)
In-ids x [] h = absurd h
In-ids x (e ∷ es) (inl p) = (e, inl refl, p)
In-ids x (e ∷ es) (inr m) = let (d, i, p) = In-ids x es m in (d, inr i, p)

-- A deleted id is that of an execution beside which a newer one stands.
abbrev pub HasNewer : List ExecMeta → ℕ → Type 0
HasNewer execs x =
    (e : ExecMeta) × (n : ExecMeta) × In e execs × In n execs × (e.id ≡ x) × (newer n e ≡ true)

selected-HasNewer :
    (newest : ExecMeta) (rest : List ExecMeta) (marked : Marks) (x : ℕ)
    → IsSorted newer (newest ∷ rest)
    → In x (selected newest marked (newest ∷ rest))
    → HasNewer (newest ∷ rest) x
selected-HasNewer newest rest marked x s m =
    let test = λ (e : ExecMeta). not (e.id == newest.id) && marks marked e.id in
    let (e, i, p) = In-ids x (filter test (newest ∷ rest)) m in
    let (j, t) = In-filter test e (newest ∷ rest) i in
    (
      e,
      newest,
      j,
      inl refl,
      p,
      newer_total newest e
          (elim j [
            | inl q ↦ absurd (ground (arith, ap (λ (y : ExecMeta). y.id) q))
            | inr k ↦ All-In (λ y. newer y newest ≡ false) rest e s.0 k
          ])
          (ground arith),
    )

select_sorted-HasNewer :
    (amount days max_gb : ℕ) (sorted : List ExecMeta) (deleted : List ℕ) (x : ℕ)
    → IsSorted newer sorted
    → select_sorted amount days max_gb sorted ≡ some deleted
    → In x deleted
    → HasNewer sorted x
unfolding select_sorted
select_sorted-HasNewer amount days max_gb [] deleted x s h m =
    absurd (subst (In x) (some-injective _ _ (sym h)) m)
select_sorted-HasNewer amount days max_gb (newest ∷ rest) deleted x s h m =
    elim (Option-cases (days_marks days newest (newest ∷ rest))) [
      | inl e ↦ absurd (ground arith)
      | inr (by_days, e) ↦
          let marked =
            amount_marks amount (newest ∷ rest) ++ (by_days ++ gb_marks max_gb (newest ∷ rest)) in
          selected-HasNewer newest rest marked x s (
            subst (In x)
              (some-injective _ _ (
                sym h
                ∙ ap
                    (map_option (λ (b : Marks).
                      selected newest
                        (amount_marks amount (newest ∷ rest)
                          ++ (b ++ gb_marks max_gb (newest ∷ rest)))
                        (newest ∷ rest)))
                    e))
              m)
    ]

-- Every id that is selected is that of an execution of the list beside which the list holds a
-- newer one (later, or as late with a larger id): the newest is never deleted.
pub select_for_deletion-HasNewer :
    (execs : List ExecMeta) (amount days max_gb : ℕ) (deleted : List ℕ) (x : ℕ)
    → select_for_deletion execs amount days max_gb ≡ some deleted
    → In x deleted
    → HasNewer execs x
unfolding select_for_deletion
select_for_deletion-HasNewer execs amount days max_gb deleted x h m =
    elim (Bool-cases ((amount == 0) && ((days == 0) && (max_gb == 0)))) [
      | inl e ↦ absurd (subst (In x) (some-injective _ _ (sym (rw e at h))) m)
      | inr e ↦
          let (d, n, i, j, p, q) =
            select_sorted-HasNewer amount days max_gb (sorted_newest execs) deleted x
              (sorted_newest-IsSorted execs) (rw e at h) m in
          (d, n, (In-sorted_newest d execs).0 i, (In-sorted_newest n execs).0 j, p, q)
    ]
