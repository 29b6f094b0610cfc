-- ===== src/Core/Retention/Rules.antt =====
-- The three rules are independent, and their selections are unioned.
use rustify.Prelude.{
  ℕ, ◌≡◌, ◌≢◌, refl, sym, ap, subst, ◌∙◌, ◌⊎◌, inl, inr, ◌↔◌, Bool, true, false, not, ◌&&◌, ◌||◌,
  some, List, [], ◌∷◌, ◌++◌, append-nil, map_option, arith, ◌==◌, filter, filter_none, any-append,
  Bool-cases, Option-cases, All, In, In-filter, filter-In,
}
use mathlib.Core.Option.{some-injective}
use rustify.Core.Retention.Newest.{In-ids}
use rustify.Core.Retention.{
  ExecMeta, exec_keyed, sorted_newest, Marks, ids, marks, days_marks, amount_marks, gb_marks,
  selected, select_sorted, select_for_deletion,
}

All-everywhere :
    (p : ExecMeta → Bool) (es : List ExecMeta)
    → ((e : ExecMeta) → p e ≡ false)
    → All (λ e. p e ≡ false) es
All-everywhere p [] h = tt
All-everywhere p (e ∷ es) h = (h e, All-everywhere p es h)

select_none : (es : List ExecMeta) → select_sorted 0 0 0 es ≡ some []
unfolding select_sorted
select_none [] = refl
select_none (n ∷ es) =
    let test = λ (e : ExecMeta). not (e.id == n.id) && marks [] e.id in
    rw (filter_none test (n ∷ es) (All-everywhere test (n ∷ es) (λ e. ground arith))) refl

-- The early exit of a configuration of zeros changes nothing.
pub select-eq_sorted :
    (execs : List ExecMeta) (amount days max_gb : ℕ)
    → select_for_deletion execs amount days max_gb
      ≡ select_sorted amount days max_gb (sorted_newest execs)
unfolding select_for_deletion
select-eq_sorted execs amount days max_gb =
    elim (Bool-cases ((amount == 0) && ((days == 0) && (max_gb == 0)))) [
      | inl e ↦ rw e (sym (select_none (sorted_newest execs)) ∙ ground arith)
      | inr e ↦ rw e refl
    ]

In-ids_of : (e : ExecMeta) (es : List ExecMeta) → In e es → In e.id (ids es)
In-ids_of e [] h = absurd h
In-ids_of e (x ∷ xs) (inl p) = inl (ap (λ (y : ExecMeta). y.id) p)
In-ids_of e (x ∷ xs) (inr h) = inr (In-ids_of e xs h)

-- What it is for an id to be selected under a set of marks.
abbrev Picked : ExecMeta → Marks → List ExecMeta → ℕ → Type 0
Picked newest marked es x =
    (e : ExecMeta) × In e es × (e.id ≡ x) × (e.id ≢ newest.id) × (marks marked e.id ≡ true)

selected_iff :
    (newest : ExecMeta) (marked : Marks) (es : List ExecMeta) (x : ℕ)
    → In x (selected newest marked es) ↔ Picked newest marked es x
selected_iff newest marked es x = (
  (λ m.
      let test = λ (e : ExecMeta). not (e.id == newest.id) && marks marked e.id in
      let (e, i, p) = In-ids x (filter test es) m in
      let (j, t) = In-filter test e es i in (e, j, p, ground arith, ground arith)),
  (λ h.
      subst (λ (y : ℕ). In y (selected newest marked es)) h.2
        (In-ids_of h.0 _ (filter-In _ h.0 es h.1 (ground (arith, h.3, h.4))))),
)

marks-union :
    (a b c : Marks) (k : ℕ) → marks (a ++ (b ++ c)) k ≡ (marks a k || (marks b k || marks c k))
marks-union a b c k = rw (any-append (λ i. i == k) a (b ++ c), any-append (λ i. i == k) b c) refl

selected-union :
    (newest : ExecMeta) (a b c : Marks) (es : List ExecMeta) (x : ℕ)
    → In x (selected newest (a ++ (b ++ c)) es)
      ↔ (In x (selected newest a es) ⊎ (In x (selected newest b es) ⊎ In x (selected newest c es)))
selected-union newest a b c es x = (
  (λ m.
      let (e, i, p, n, t) = (selected_iff newest (a ++ (b ++ c)) es x).0 m in
      elim (Bool-cases (marks a e.id)) [
        | inl ma ↦ inl ((selected_iff newest a es x).1 (e, i, p, n, ma))
        | inr na ↦ elim (Bool-cases (marks b e.id)) [
          | inl mb ↦ inr (inl ((selected_iff newest b es x).1 (e, i, p, n, mb)))
          | inr nb ↦ inr (
              inr (
                (selected_iff newest c es x).1
                  (e, i, p, n, ground (arith, marks-union a b c e.id))))
        ]
      ]),
  (λ h. elim h [
    | inl m ↦
        let (e, i, p, n, t) = (selected_iff newest a es x).0 m in
        (selected_iff newest (a ++ (b ++ c)) es x).1
          (e, i, p, n, rw (marks-union a b c e.id) (ground (arith, t)))
    | inr k ↦ elim k [
      | inl m ↦
          let (e, i, p, n, t) = (selected_iff newest b es x).0 m in
          (selected_iff newest (a ++ (b ++ c)) es x).1
            (e, i, p, n, rw (marks-union a b c e.id) (ground (arith, t)))
      | inr m ↦
          let (e, i, p, n, t) = (selected_iff newest c es x).0 m in
          (selected_iff newest (a ++ (b ++ c)) es x).1
            (e, i, p, n, rw (marks-union a b c e.id) (ground (arith, t)))
    ]
  ]),
)

-- The three selections of one configuration, each rule alone.
pub record Union (execs : List ExecMeta) (amount days max_gb : ℕ) (deleted : List ℕ) : Type 0 where
  pub by_amount : List ℕ
  pub by_days : List ℕ
  pub by_size : List ℕ
  pub amount_alone : select_for_deletion execs amount 0 0 ≡ some by_amount
  pub days_alone : select_for_deletion execs 0 days 0 ≡ some by_days
  pub size_alone : select_for_deletion execs 0 0 max_gb ≡ some by_size
  pub union : (x : ℕ) → In x deleted ↔ (In x by_amount ⊎ (In x by_days ⊎ In x by_size))

-- Each rule alone, on the sorted list.
module _ (n : ExecMeta) (es : List ExecMeta) where
  pub amount_alone :
      (amount : ℕ)
      → select_sorted amount 0 0 (n ∷ es)
        ≡ some (selected n (amount_marks amount (n ∷ es)) (n ∷ es))
  unfolding select_sorted
  amount_alone amount =
      ap (λ (m : Marks). some (selected n m (n ∷ es))) (append-nil (amount_marks amount (n ∷ es)))

  days_alone :
      (days : ℕ) (d : Marks)
      → days_marks days n (n ∷ es) ≡ some d
      → select_sorted 0 days 0 (n ∷ es) ≡ some (selected n d (n ∷ es))
  unfolding select_sorted
  days_alone days d e =
      ap (map_option (λ (b : Marks). selected n (b ++ []) (n ∷ es))) e
      ∙ ap (λ (m : Marks). some (selected n m (n ∷ es))) (append-nil d)

  size_alone :
      (max_gb : ℕ)
      → select_sorted 0 0 max_gb (n ∷ es) ≡ some (selected n (gb_marks max_gb (n ∷ es)) (n ∷ es))
  unfolding select_sorted
  size_alone max_gb = refl

  all_rules :
      (amount days max_gb : ℕ) (d : Marks)
      → days_marks days n (n ∷ es) ≡ some d
      → select_sorted amount days max_gb (n ∷ es)
        ≡ some
            (selected n (amount_marks amount (n ∷ es) ++ (d ++ gb_marks max_gb (n ∷ es))) (n ∷ es))
  unfolding select_sorted
  all_rules amount days max_gb d e =
      ap
        (map_option (λ (b : Marks).
          selected n (amount_marks amount (n ∷ es) ++ (b ++ gb_marks max_gb (n ∷ es))) (n ∷ es)))
        e

  no_panic :
      (amount days max_gb : ℕ) (deleted : List ℕ)
      → select_sorted amount days max_gb (n ∷ es) ≡ some deleted
      → (d : Marks) × (days_marks days n (n ∷ es) ≡ some d)
  unfolding select_sorted
  no_panic amount days max_gb deleted h = elim (Option-cases (days_marks days n (n ∷ es))) [
    | inl e ↦ absurd (ground arith)
    | inr (d, e) ↦ (d, e)
  ]

select_empty : (amount days max_gb : ℕ) → select_sorted amount days max_gb [] ≡ some []
unfolding select_sorted
select_empty amount days max_gb = refl

Union-sorted :
    (execs es : List ExecMeta) (amount days max_gb : ℕ) (deleted : List ℕ)
    → sorted_newest execs ≡ es
    → select_sorted amount days max_gb es ≡ some deleted
    → Union execs amount days max_gb deleted
Union-sorted execs [] amount days max_gb deleted s h = record {
  by_amount = [];
  by_days = [];
  by_size = [];
  amount_alone = select-eq_sorted execs amount 0 0 ∙ rw s (select_empty amount 0 0);
  days_alone = select-eq_sorted execs 0 days 0 ∙ rw s (select_empty 0 days 0);
  size_alone = select-eq_sorted execs 0 0 max_gb ∙ rw s (select_empty 0 0 max_gb);
  union = λ x. (
    λ m. absurd (
        subst (In x) {x = deleted} {y = []}
          (some-injective _ _ (sym h ∙ select_empty amount days max_gb)) m),
    λ k. elim k [ inl m ↦ absurd m | inr m ↦ elim m [ inl a ↦ absurd a | inr a ↦ absurd a ] ],
  );
}
Union-sorted execs (n ∷ es) amount days max_gb deleted s h =
    let (d, e) = no_panic n es amount days max_gb deleted h in
    let whole = some-injective _ _ (sym (all_rules n es amount days max_gb d e) ∙ h) in
    record {
      by_amount = selected n (amount_marks amount (n ∷ es)) (n ∷ es);
      by_days = selected n d (n ∷ es);
      by_size = selected n (gb_marks max_gb (n ∷ es)) (n ∷ es);
      amount_alone = select-eq_sorted execs amount 0 0 ∙ rw s (amount_alone n es amount);
      days_alone = select-eq_sorted execs 0 days 0 ∙ rw s (days_alone n es days d e);
      size_alone = select-eq_sorted execs 0 0 max_gb ∙ rw s (size_alone n es max_gb);
      union = λ x.
          rw (← whole) (
            selected-union n (amount_marks amount (n ∷ es)) d (gb_marks max_gb (n ∷ es)) (n ∷ es)
              x);
    }

-- If a configuration selects without a panic, so does each rule alone, and an id is selected
-- exactly when one of the three rules alone selects it.
pub select_for_deletion-Union :
    (execs : List ExecMeta) (amount days max_gb : ℕ) (deleted : List ℕ)
    → select_for_deletion execs amount days max_gb ≡ some deleted
    → Union execs amount days max_gb deleted
select_for_deletion-Union execs amount days max_gb deleted h =
    Union-sorted execs (sorted_newest execs) amount days max_gb deleted refl
      (sym (select-eq_sorted execs amount days max_gb) ∙ h)
