-- ===== src/Core/Retention/Amount.antt =====
-- The rule by number keeps the newest, and deletes the rest in newest-first order.
use rustify.Prelude.{
  ℕ, zero, suc, ◌≡◌, ◌≢◌, refl, ap, ◌∙◌, inl, inr, Bool, true, false, not, ◌&&◌, some, List, [],
  ◌∷◌, arith, All-of_In, ◌==◌, drop, filter, All, All-In, In,
}
use rustify.Prelude.Keyed.{Unique}
use rustify.Prelude.Sort.{sort_by-Unique}
use rustify.Core.Retention.Rules.{select-eq_sorted, amount_alone}
use rustify.Core.Retention.{
  ExecMeta, exec_keyed, newer, sorted_newest, Marks, ids, marks, amount_marks, selected,
  select_sorted, select_for_deletion,
}

marks-fresh : (k : ℕ) (es : List ExecMeta) → All (λ e. e.id ≢ k) es → marks (ids es) k ≡ false
marks-fresh k [] h = refl
marks-fresh k (e ∷ es) h = ground (arith, marks-fresh k es)

All-drop : (P : ExecMeta → Type 0) (n : ℕ) (es : List ExecMeta) → All P es → All P (drop n es)
All-drop P zero es h = h
All-drop P (suc n) [] h = h
All-drop P (suc n) (e ∷ es) h = All-drop P n es h.1

-- A test that holds of every element keeps the list.
filter-All :
    (p : ExecMeta → Bool) (es : List ExecMeta) → All (λ e. p e ≡ true) es → filter p es ≡ es
filter-All p [] h = refl
filter-All p (e ∷ es) h = ground (arith, filter-All p es)

filter_agree :
    (p q : ExecMeta → Bool) (es : List ExecMeta)
    → All (λ e. p e ≡ q e) es
    → filter p es ≡ filter q es
filter_agree p q [] h = refl
filter_agree p q (e ∷ es) h = ground (arith, filter_agree p q es)

All-marks :
    (x : ExecMeta) (xs es : List ExecMeta)
    → All (λ e. e.id ≢ x.id) es
    → All (λ e. marks (ids (x ∷ xs)) e.id ≡ marks (ids xs) e.id) es
All-marks x xs [] h = tt
All-marks x xs (e ∷ es) h = (ground arith, All-marks x xs es h.1)

marks_self : (es : List ExecMeta) → All (λ e. marks (ids es) e.id ≡ true) es
marks_self es = All-of_In _ es (λ x i. go es x i)
  where
    go : (es : List ExecMeta) (x : ExecMeta) → In x es → marks (ids es) x.id ≡ true
    go [] x i = absurd i
    go (e ∷ es) x (inl p) = ground (arith, ap (λ (y : ExecMeta). y.id) p)
    go (e ∷ es) x (inr i) = ground (arith, go es x i)

-- In a list whose ids differ, the elements whose ids stand behind the first `n` are those.
filter-drop :
    (n : ℕ) (es : List ExecMeta)
    → Unique es
    → filter (λ e. marks (ids (drop n es)) e.id) es ≡ drop n es
filter-drop zero es u = filter-All _ es (marks_self es)
filter-drop (suc n) [] u = refl
filter-drop (suc n) (e ∷ es) u =
    ground
      (arith, filter-drop n es, marks-fresh e.id (drop n es) (All-drop (λ x. x.id ≢ e.id) n es u.0))

marks_amount : (a : ℕ) (es : List ExecMeta) → amount_marks (suc a) es ≡ ids (drop (suc a) es)
unfolding amount_marks
marks_amount a es = ground arith

amount_exact :
    (a : ℕ) (n : ExecMeta) (es : List ExecMeta)
    → Unique (n ∷ es)
    → selected n (ids (drop a es)) (n ∷ es) ≡ ids (drop a es)
amount_exact a n es u =
    let mask = λ (e : ExecMeta). not (e.id == n.id) && marks (ids (drop a es)) e.id in
    let behind =
      filter_agree mask (λ e. marks (ids (drop a es)) e.id) es
        (All-of_In _ es (λ x i. ground (arith, All-In (λ y. y.id ≢ n.id) es x u.0 i))) in
    ap ids (ground (arith, behind, filter-drop a es u.1))

-- With the rule by number alone and distinct ids, the selection is all but the `amount` newest,
-- in newest-first order.
pub select_amount_alone :
    (execs : List ExecMeta) (a : ℕ)
    → Unique execs
    → select_for_deletion execs (suc a) 0 0 ≡ some (ids (drop (suc a) (sorted_newest execs)))
select_amount_alone execs a u =
    select-eq_sorted execs (suc a) 0 0
    ∙ go (sorted_newest execs) (unfold sorted_newest in sort_by-Unique newer execs u)
  where
    go :
        (es : List ExecMeta)
        → Unique es
        → select_sorted (suc a) 0 0 es ≡ some (ids (drop (suc a) es))
    go [] v = unfold select_sorted in refl
    go (n ∷ es) v =
        amount_alone n es (suc a)
        ∙ ap (λ (m : Marks). some (selected n m (n ∷ es))) (marks_amount a (n ∷ es))
        ∙ ap some (amount_exact a n es v)
