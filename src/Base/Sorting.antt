-- ===== src/Base/Sorting.antt =====
-- Stable sorting by a Boolean order, and relations between the items of a list.
use mathlib.Core.Path.{◌≡◌, refl}
use mathlib.Core.Logic.{inl, inr}
use mathlib.Core.Bool.{Bool, true, false, ◌||◌}
use mathlib.Core.List.{List, [], ◌∷◌, map}
use native.Mathlib.Omega.{arith}
use network_backend_article.Base.Tests.{Bool-cases}
use network_backend_article.Base.Lists.{All, All-map, any, filter, insert_by, sort_by}

-- Every item is related to every later one.
abbrev pub Pairwise : {A : Type 0} → (A → A → Bool) → List A → Type 0
Pairwise r [] = Unit
Pairwise r (x ∷ xs) = All (λ y. r x y ≡ true) xs × Pairwise r xs

pub record IsOrder {A : Type 0} (le : A → A → Bool) : Type 0 where
  pub total : (x y : A) → le x y ≡ false → le y x ≡ true
  pub transitive : (x y z : A) → le x y ≡ true → le y z ≡ true → le x z ≡ true

module _ {A : Type 0} (le : A → A → Bool) where
  module _ (P : A → Type 0) where
    All-insert_by : (x : A) (ys : List A) → P x → All P ys → All P (insert_by le x ys)
    All-insert_by x [] p h = (p, tt)
    All-insert_by x (y ∷ ys) p h = elim (Bool-cases (le x y)) [
      | inl e ↦ rw e (p, h)
      | inr e ↦ rw e (h.0, All-insert_by x ys p h.1)
    ]

    -- What holds of all items holds of all after sorting.
    pub All-sort_by : (xs : List A) → All P xs → All P (sort_by le xs)
    All-sort_by [] h = tt
    All-sort_by (x ∷ xs) h = All-insert_by x (sort_by le xs) h.0 (All-sort_by xs h.1)

  module _ (r : A → A → Bool) (symmetric : (x y : A) → r x y ≡ true → r y x ≡ true) where
    Pairwise-insert_by :
        (x : A) (ys : List A)
        → All (λ y. r x y ≡ true) ys
        → Pairwise r ys
        → Pairwise r (insert_by le x ys)
    Pairwise-insert_by x [] a h = (tt, tt)
    Pairwise-insert_by x (y ∷ ys) a h = elim (Bool-cases (le x y)) [
      | inl e ↦ rw e (a, h)
      | inr e ↦ rw e (
        All-insert_by (λ z. r y z ≡ true) x ys (symmetric x y a.0) h.0,
        Pairwise-insert_by x ys a.1 h.1,
      )
    ]

    -- A symmetric relation between any two items survives sorting.
    pub Pairwise-sort_by : (xs : List A) → Pairwise r xs → Pairwise r (sort_by le xs)
    Pairwise-sort_by [] h = tt
    Pairwise-sort_by (x ∷ xs) h =
        Pairwise-insert_by x (sort_by le xs) (All-sort_by (λ y. r x y ≡ true) xs h.0)
          (Pairwise-sort_by xs h.1)

  module _ (order : IsOrder le) where
    insert_by-Pairwise : (x : A) (ys : List A) → Pairwise le ys → Pairwise le (insert_by le x ys)
    insert_by-Pairwise x [] h = (tt, tt)
    insert_by-Pairwise x (y ∷ ys) h = elim (Bool-cases (le x y)) [
      | inl e ↦ rw e ((e, All-map (λ z p. order.transitive x y z e p) ys h.0), h)
      | inr e ↦ rw e (
        All-insert_by (λ z. le y z ≡ true) x ys (order.total x y e) h.0,
        insert_by-Pairwise x ys h.1,
      )
    ]

    -- A sorted list is in order.
    pub sort_by-Pairwise : (xs : List A) → Pairwise le (sort_by le xs)
    sort_by-Pairwise [] = tt
    sort_by-Pairwise (x ∷ xs) = insert_by-Pairwise x (sort_by le xs) (sort_by-Pairwise xs)

module _ {A : Type 0} (le : A → A → Bool) (p : A → Bool) where
  any-insert_by : (x : A) (ys : List A) → any p (insert_by le x ys) ≡ (p x || any p ys)
  any-insert_by x [] = refl
  any-insert_by x (y ∷ ys) = elim (Bool-cases (le x y)) [
    | inl e ↦ rw e refl
    | inr e ↦ rw (e, any-insert_by x ys) (ground arith)
  ]

  pub any-sort_by : (xs : List A) → any p (sort_by le xs) ≡ any p xs
  any-sort_by [] = refl
  any-sort_by (x ∷ xs) = rw (any-insert_by x (sort_by le xs), any-sort_by xs) refl

module _ {A : Type 0} (p : A → Bool) where
  pub All-filter_self : (q : A → Type 0) (xs : List A) → All q xs → All q (filter p xs)
  All-filter_self q [] h = tt
  All-filter_self q (x ∷ xs) h = elim (Bool-cases (p x)) [
    | inl e ↦ rw e (h.0, All-filter_self q xs h.1)
    | inr e ↦ rw e (All-filter_self q xs h.1)
  ]

  pub Pairwise-filter : (r : A → A → Bool) (xs : List A) → Pairwise r xs → Pairwise r (filter p xs)
  Pairwise-filter r [] h = tt
  Pairwise-filter r (x ∷ xs) h = elim (Bool-cases (p x)) [
    | inl e ↦ rw e (All-filter_self (λ y. r x y ≡ true) xs h.0, Pairwise-filter r xs h.1)
    | inr e ↦ rw e (Pairwise-filter r xs h.1)
  ]

module _ {A B : Type 0} (f : A → B) where
  pub All-of_map : (P : B → Type 0) (xs : List A) → All (λ a. P (f a)) xs → All P (map f xs)
  All-of_map P [] h = tt
  All-of_map P (x ∷ xs) h = (h.0, All-of_map P xs h.1)

  pub Pairwise-map :
      (r : B → B → Bool) (xs : List A) → Pairwise (λ a b. r (f a) (f b)) xs → Pairwise r (map f xs)
  Pairwise-map r [] h = tt
  Pairwise-map r (x ∷ xs) h = (All-of_map (λ y. r (f x) y ≡ true) xs h.0, Pairwise-map r xs h.1)

module _ {A B : Type 0} (f : A → B) where
  pub All-under_map : (P : B → Type 0) (xs : List A) → All P (map f xs) → All (λ a. P (f a)) xs
  All-under_map P [] h = tt
  All-under_map P (x ∷ xs) h = (h.0, All-under_map P xs h.1)

  pub Pairwise-under_map :
      (r : B → B → Bool) (xs : List A) → Pairwise r (map f xs) → Pairwise (λ a b. r (f a) (f b)) xs
  Pairwise-under_map r [] h = tt
  Pairwise-under_map r (x ∷ xs) h =
      (All-under_map (λ y. r (f x) y ≡ true) xs h.0, Pairwise-under_map r xs h.1)

-- The rows that a filter keeps pass its test.
pub All-filter : {A : Type 0} (p : A → Bool) (xs : List A) → All (λ x. p x ≡ true) (filter p xs)
All-filter p [] = tt
All-filter p (x ∷ xs) = elim (Bool-cases (p x)) [
  | inl e ↦ rw e (e, All-filter p xs)
  | inr e ↦ rw e (All-filter p xs)
]

pub All-both :
    {A : Type 0} {P Q R : A → Type 0}
    → ((x : A) → P x → Q x → R x)
    → (xs : List A) → All P xs
    → All Q xs
    → All R xs
All-both f [] h k = tt
All-both f (x ∷ xs) h k = (f x h.0 k.0, All-both f xs h.1 k.1)

-- Two relations together.
pub Pairwise-both :
    {A : Type 0} (r q t : A → A → Bool)
    → ((x y : A) → r x y ≡ true → q x y ≡ true → t x y ≡ true)
    → (xs : List A) → Pairwise r xs
    → Pairwise q xs
    → Pairwise t xs
Pairwise-both r q t f [] h k = tt
Pairwise-both r q t f (x ∷ xs) h k = (All-both (f x) xs h.0 k.0, Pairwise-both r q t f xs h.1 k.1)
