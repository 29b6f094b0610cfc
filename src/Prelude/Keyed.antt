-- ===== src/Prelude/Keyed.antt =====
-- Rows under a primary key, and what an UPDATE does to them.
use rustify.Prelude.Tests.{◌==◌, if◌then◌else◌, Bool-cases, map_option}
use rustify.Prelude.Lists.{filter, count_if, find, All, All-append, All-In, In}
use Prim.Native.Nat.{ℕ, ◌<◌, ◌+◌}
use mathlib.Core.Path.{◌≡◌, refl, sym, ap, subst}
use mathlib.Core.Logic.{◌≢◌, inl, inr}
use mathlib.Core.Bool.{Bool, true, not, ◌&&◌}
use mathlib.Core.Option.{Option, none, some}
use mathlib.Core.List.{List, [], ◌∷◌, ◌++◌, map}
use native.Mathlib.Omega.{arith}

-- A table's primary key.
pub record Keyed (A : Type 0) : Type 0 where
  pub key : A → ℕ

abbrev pub key : {A : Type 0} ⦃k : Keyed A⦄ → A → ℕ
key ⦃k⦄ = k.key

-- UPDATE … SET … WHERE: the rows after it.
abbrev pub update_where : {A : Type 0} → (A → Bool) → (A → A) → List A → List A
update_where p f = map (λ d. if p d then f d else d)

abbrev pub bit : Bool → ℕ
bit b = if b then 1 else 0

module _ {A : Type 0} ⦃k : Keyed A⦄ where
  -- The row with a key.
  abbrev pub row : ℕ → List A → Option A
  row id rows = find (λ d. key d == id) rows

-- An UPDATE that keeps the keys acts on each row by itself.
module _ {A : Type 0} ⦃k : Keyed A⦄ (p : A → Bool) (f : A → A)
    (keeps : (d : A) → key (f d) ≡ key d) where
  pub row-update :
      (id : ℕ) (rows : List A)
      → row id (update_where p f rows) ≡ map_option (λ d. if p d then f d else d) (row id rows)
  row-update id [] = refl
  row-update id (d ∷ ds) = ground (arith, row-update id ds, keeps d)

  pub All-update :
      (P : A → Type 0) (rows : List A)
      → ((d : A) → In d rows → p d ≡ true → P d → P (f d))
      → All P rows
      → All P (update_where p f rows)
  All-update P [] step h = tt
  All-update P (d ∷ ds) step h = elim (Bool-cases (p d)) [
    | inl e ↦ rw e (step d (inl refl) e h.0, All-update P ds (λ x i. step x (inr i)) h.1)
    | inr e ↦ rw e (h.0, All-update P ds (λ x i. step x (inr i)) h.1)
  ]

module _ {A : Type 0} ⦃k : Keyed A⦄ where
  pub row-id : (id : ℕ) (rows : List A) (d : A) → row id rows ≡ some d → key d ≡ id
  row-id id [] d h = cc
  row-id id (e ∷ es) d h = ground (arith, row-id id es d, ap (λ (x : A). key x) {x = e} {y = d})

  pub row-In : (id : ℕ) (rows : List A) (d : A) → row id rows ≡ some d → In d rows
  row-In id [] d h = cc
  row-In id (e ∷ es) d h = ground (arith, row-In id es d)

  pub row-append :
      (id : ℕ) (xs ys : List A) (d : A) → row id xs ≡ some d → row id (xs ++ ys) ≡ some d
  row-append id [] ys d h = cc
  row-append id (e ∷ es) ys d h = ground (arith, row-append id es ys d)

  -- Each key stands once: the primary key constraint.
  abbrev pub Unique : List A → Type 0
  Unique [] = Unit
  Unique (d ∷ ds) = All (λ e. key e ≢ key d) ds × Unique ds

  pub count-fresh :
      (q : A → Bool) (id : ℕ) (rows : List A)
      → All (λ e. key e ≢ id) rows
      → count_if (λ d. (key d == id) && q d) rows ≡ 0
  count-fresh q id [] h = refl
  count-fresh q id (d ∷ ds) h = ground (arith, count-fresh q id ds)

  -- A test on the row with a key selects at most that row.
  pub count-keyed :
      (q : A → Bool) (id : ℕ) (rows : List A)
      → Unique rows
      → count_if (λ d. (key d == id) && q d) rows
        ≡ elim (row id rows) [ none ↦ 0 | some d ↦ if q d then 1 else 0 ]
  count-keyed q id [] u = refl
  count-keyed q id (d ∷ ds) u =
      ground (arith, count-keyed q id ds, count-fresh q id ds, count-fresh q (key d) ds)

  pub row-of_In : (d : A) (rows : List A) → Unique rows → In d rows → row (key d) rows ≡ some d
  row-of_In d [] u h = absurd h
  row-of_In d (e ∷ es) u (inl p) = ground (arith, ap (λ (x : A). key x) p)
  row-of_In d (e ∷ es) u (inr h) =
      ground (arith, row-of_In d es u.1 h, All-In (λ x. key x ≢ key e) es d u.0 h)

  pub Unique-update :
      (p : A → Bool) (f : A → A)
      → ((d : A) → key (f d) ≡ key d)
      → (rows : List A) → Unique rows
      → Unique (update_where p f rows)
  Unique-update p f keeps [] u = tt
  Unique-update p f keeps (d ∷ ds) u = (
    All-update p f keeps (λ e. key e ≢ key (if p d then f d else d)) ds
        (λ e _ _ ne. ground (arith, keeps e))
        (elim (Bool-cases (p d)) [ inl t ↦ rw (t, keeps d) u.0 | inr t ↦ rw t u.0 ]),
    Unique-update p f keeps ds u.1,
  )

  pub Unique-append :
      (xs : List A) (d : A) → Unique xs → All (λ e. key e < key d) xs → Unique (xs ++ d ∷ [])
  Unique-append [] d u b = (tt, tt)
  Unique-append (x ∷ xs) d u b = (
    All-append (λ e. key e ≢ key x) xs (d ∷ []) u.0 (omega arith, tt),
    Unique-append xs d u.1 b.1,
  )

  update-fresh :
      (n : ℕ) (f : A → A) (rows : List A)
      → All (λ e. key e ≢ n) rows
      → update_where (λ e. key e == n) f rows ≡ rows
  update-fresh n f [] h = refl
  update-fresh n f (d ∷ ds) h = ground (arith, update-fresh n f ds)

  -- Rewriting the one row `d` moves a count by what the test says of it before and after.
  pub count-update :
      (q : A → Bool) (f : A → A) (d : A) (rows : List A)
      → Unique rows
      → In d rows
      → count_if q (update_where (λ e. key e == key d) f rows) + bit (q d)
        ≡ count_if q rows + bit (q (f d))
  count-update q f d [] u m = absurd m
  count-update q f d (x ∷ xs) u (inl p) =
      subst
        (λ (y : A).
          count_if q (update_where (λ e. key e == key d) f (y ∷ xs)) + bit (q d)
          ≡ count_if q (y ∷ xs) + bit (q (f d)))
        (sym p)
        (ground
          (arith, update-fresh (key d) f xs (subst (λ (y : A). All (λ e. key e ≢ key y) xs) p u.0)))
  count-update q f d (x ∷ xs) u (inr m) =
      ground (arith, count-update q f d xs u.1 m, All-In (λ e. key e ≢ key x) xs d u.0 m)

  -- Two rows of a table with one key are one row.
  pub eq_of_key :
      (rows : List A) (x d : A) → Unique rows → In x rows → In d rows → key x ≡ key d → x ≡ d
  eq_of_key rows x d u i j e =
      ground (arith, row-of_In x rows u i, row-of_In d rows u j, ap (λ (n : ℕ). row n rows) e)

  -- DELETE … WHERE the key is `n`.
  pub row-delete :
      (n id : ℕ) (rows : List A)
      → row id (filter (λ e. not (key e == n)) rows) ≡ (if id == n then none else row id rows)
  row-delete n id [] = ground arith
  row-delete n id (d ∷ ds) = ground (arith, row-delete n id ds)

  pub All-filter :
      (P : A → Type 0) (p : A → Bool) (rows : List A) → All P rows → All P (filter p rows)
  All-filter P p [] h = tt
  All-filter P p (d ∷ ds) h = elim (Bool-cases (p d)) [
    | inl e ↦ rw e (h.0, All-filter P p ds h.1)
    | inr e ↦ rw e (All-filter P p ds h.1)
  ]

  pub Unique-filter : (p : A → Bool) (rows : List A) → Unique rows → Unique (filter p rows)
  Unique-filter p [] u = tt
  Unique-filter p (d ∷ ds) u = elim (Bool-cases (p d)) [
    | inl e ↦ rw e (All-filter (λ x. key x ≢ key d) p ds u.0, Unique-filter p ds u.1)
    | inr e ↦ rw e (Unique-filter p ds u.1)
  ]
