-- ===== src/Prelude/Sort.antt =====
-- A stable sort by a test `before`, as `sort_by` makes it.
use mathlib.Core.Path.{◌≡◌, sym}
use mathlib.Core.Logic.{◌⊎◌, ◌↔◌, ◌≢◌, inl, inr}
use mathlib.Core.Bool.{Bool, true, false}
use mathlib.Core.List.{List, [], ◌∷◌}
use rustify.Prelude.Tests.{if◌then◌else◌, Bool-cases}
use rustify.Prelude.Lists.{All, In}
use rustify.Prelude.Keyed.{Keyed, key, Unique}

module _ {A : Type 0} (before : A → A → Bool) where
  insert_by : A → List A → List A
  insert_by x [] = x ∷ []
  insert_by x (y ∷ ys) = if before y x then y ∷ insert_by x ys else x ∷ y ∷ ys

  unfoldable pub sort_by : List A → List A
  unfolding insert_by
  sort_by [] = []
  sort_by (x ∷ xs) = insert_by x (sort_by xs)

  In-insert_by : (a x : A) (ys : List A) → In a (insert_by x ys) ↔ ((x ≡ a) ⊎ In a ys)
  unfolding insert_by
  In-insert_by a x [] = (λ h. h, λ h. h)
  In-insert_by a x (y ∷ ys) = elim (Bool-cases (before y x)) [
    | inl e ↦ rw e (
      (λ h. elim h [
        | inl p ↦ inr (inl p)
        | inr m ↦ elim ((In-insert_by a x ys).0 m) [ inl p ↦ inl p | inr m' ↦ inr (inr m') ]
      ]),
      (λ h. elim h [
        | inl p ↦ inr ((In-insert_by a x ys).1 (inl p))
        | inr m ↦ elim m [ inl p ↦ inl p | inr m' ↦ inr ((In-insert_by a x ys).1 (inr m')) ]
      ]),
    )
    | inr e ↦ rw e (λ h. h, λ h. h)
  ]

  -- Sorting keeps the elements.
  pub In-sort_by : (a : A) (xs : List A) → In a (sort_by xs) ↔ In a xs
  unfolding sort_by
  In-sort_by a [] = (λ h. h, λ h. h)
  In-sort_by a (x ∷ xs) = (
    (λ h. elim ((In-insert_by a x (sort_by xs)).0 h) [
      | inl p ↦ inl p
      | inr m ↦ inr ((In-sort_by a xs).0 m)
    ]),
    (λ h.
        (In-insert_by a x (sort_by xs)).1
          (elim h [ inl p ↦ inl p | inr m ↦ inr ((In-sort_by a xs).1 m) ])),
  )

  All-insert_by : (P : A → Type 0) (x : A) (ys : List A) → P x → All P ys → All P (insert_by x ys)
  unfolding insert_by
  All-insert_by P x [] px h = (px, tt)
  All-insert_by P x (y ∷ ys) px h = elim (Bool-cases (before y x)) [
    | inl e ↦ rw e (h.0, All-insert_by P x ys px h.1)
    | inr e ↦ rw e (px, h)
  ]

  pub All-sort_by : (P : A → Type 0) (xs : List A) → All P xs → All P (sort_by xs)
  unfolding sort_by
  All-sort_by P [] h = tt
  All-sort_by P (x ∷ xs) h = All-insert_by P x (sort_by xs) h.0 (All-sort_by P xs h.1)

  -- Nothing stands before an earlier element.
  abbrev pub IsSorted : List A → Type 0
  IsSorted [] = Unit
  IsSorted (x ∷ xs) = All (λ y. before y x ≡ false) xs × IsSorted xs

  module _ (asym : (a b : A) → before a b ≡ true → before b a ≡ false)
      (negative : (a b c : A) → before a b ≡ false → before b c ≡ false → before a c ≡ false) where
    All-negative :
        (x y : A) (zs : List A)
        → before y x ≡ false
        → All (λ z. before z y ≡ false) zs
        → All (λ z. before z x ≡ false) zs
    All-negative x y [] h a = tt
    All-negative x y (z ∷ zs) h a = (negative z y x a.0 h, All-negative x y zs h a.1)

    insert_by-IsSorted : (x : A) (ys : List A) → IsSorted ys → IsSorted (insert_by x ys)
    unfolding insert_by
    insert_by-IsSorted x [] s = (tt, tt)
    insert_by-IsSorted x (y ∷ ys) s = elim (Bool-cases (before y x)) [
      | inl e ↦ rw e (
        All-insert_by (λ z. before z y ≡ false) x ys (asym y x e) s.0,
        insert_by-IsSorted x ys s.1,
      )
      | inr e ↦ rw e ((e, All-negative x y ys e s.0), s)
    ]

    pub sort_by-IsSorted : (xs : List A) → IsSorted (sort_by xs)
    unfolding sort_by
    sort_by-IsSorted [] = tt
    sort_by-IsSorted (x ∷ xs) = insert_by-IsSorted x (sort_by xs) (sort_by-IsSorted xs)

  module _ ⦃k : Keyed A⦄ where
    insert_by-Unique :
        (x : A) (ys : List A) → All (λ e. key e ≢ key x) ys → Unique ys → Unique (insert_by x ys)
    unfolding insert_by
    insert_by-Unique x [] f u = (tt, tt)
    insert_by-Unique x (y ∷ ys) f u = elim (Bool-cases (before y x)) [
      | inl e ↦ rw e (
        All-insert_by (λ e. key e ≢ key y) x ys (λ p. f.0 (sym p)) u.0,
        insert_by-Unique x ys f.1 u.1,
      )
      | inr e ↦ rw e (f, u)
    ]

    pub sort_by-Unique : (xs : List A) → Unique xs → Unique (sort_by xs)
    unfolding sort_by
    sort_by-Unique [] u = tt
    sort_by-Unique (x ∷ xs) u =
        insert_by-Unique x (sort_by xs) (All-sort_by (λ e. key e ≢ key x) xs u.0)
          (sort_by-Unique xs u.1)
