-- ===== src/Base/Rows.antt =====
-- Which rows a query returns: `first`, `sort_by` and `filter` against membership.
use Prim.Native.Nat.{◌+◌, ◌≤◌, ◌<◌}
use mathlib.Core.Path.{◌≡◌, refl, ap, subst, sym, ◌∙◌}
use mathlib.Core.Logic.{◌⊎◌, inl, inr}
use mathlib.Core.Bool.{Bool, true, false}
use mathlib.Core.Option.{some}
use mathlib.Core.List.{List, [], ◌∷◌, ◌++◌}
use native.Mathlib.Omega.{arith}
use network_backend_article.Base.Tests.{Bool-cases}
use network_backend_article.Base.Lists.{filter, update, first, insert_by, sort_by, All, count}

abbrev pub Within : {A : Type 0} → A → List A → Type 0
Within a [] = ⊥
Within a (x ∷ xs) = (a ≡ x) ⊎ Within a xs

module _ {A : Type 0} where
  pub Within-filter :
      (p : A → Bool) (a : A) (xs : List A) → Within a (filter p xs) → (p a ≡ true) × Within a xs
  Within-filter p a [] h = absurd h
  Within-filter p a (x ∷ xs) h = elim (Bool-cases (p x)) [
    | inl t ↦ kept (Within-filter p a xs) t (rw t at h)
    | inr f ↦ let (y, z) = Within-filter p a xs (rw f at h) in (y, inr z)
  ]
    where
      kept :
          (Within a (filter p xs) → (p a ≡ true) × Within a xs)
          → p x ≡ true
          → Within a (x ∷ filter p xs)
          → (p a ≡ true) × Within a (x ∷ xs)
      kept ih t (inl e) = (rw e t, inl e)
      kept ih t (inr w) = let (y, z) = ih w in (y, inr z)

  pub Within-insert_by :
      (le : A → A → Bool) (a x : A) (ys : List A)
      → Within a (insert_by le x ys)
      → (a ≡ x) ⊎ Within a ys
  Within-insert_by le a x [] h = h
  Within-insert_by le a x (y ∷ ys) h = elim (Bool-cases (le x y)) [
    | inl t ↦ rw t at h
    | inr f ↦ behind (rw f at h) (Within-insert_by le a x ys)
  ]
    where
      behind :
          Within a (y ∷ insert_by le x ys)
          → (Within a (insert_by le x ys) → (a ≡ x) ⊎ Within a ys)
          → (a ≡ x) ⊎ Within a (y ∷ ys)
      behind (inl e) ih = inr (inl e)
      behind (inr w) ih = elim (ih w) [ inl e ↦ inl e | inr v ↦ inr (inr v) ]

  pub Within-sort_by :
      (le : A → A → Bool) (a : A) (xs : List A) → Within a (sort_by le xs) → Within a xs
  Within-sort_by le a [] h = h
  Within-sort_by le a (x ∷ xs) h = elim (Within-insert_by le a x (sort_by le xs) h) [
    | inl e ↦ inl e
    | inr w ↦ inr (Within-sort_by le a xs w)
  ]

  pub Within-first : (a : A) (xs : List A) → first xs ≡ some a → Within a xs
  Within-first a [] h = cc
  Within-first a (x ∷ xs) h = inl (cc h)

  -- The row of `… WHERE p ORDER BY … LIMIT 1` passes the test and stands in the table.
  pub first-sort_by-filter :
      (le : A → A → Bool) (p : A → Bool) (xs : List A) {a : A}
      → first (sort_by le (filter p xs)) ≡ some a
      → (p a ≡ true) × Within a xs
  first-sort_by-filter le p xs {a} h =
      Within-filter p a xs
        (Within-sort_by le a (filter p xs) (Within-first a (sort_by le (filter p xs)) h))

  first-insert_by :
      (le : A → A → Bool) (x : A) (ys : List A) → (a : A) × (first (insert_by le x ys) ≡ some a)
  first-insert_by le x [] = (x, refl)
  first-insert_by le x (y ∷ ys) = elim (Bool-cases (le x y)) [
    | inl t ↦ (x, rw t)
    | inr f ↦ (y, rw f)
  ]

  -- Where a row passes, the query returns one.
  pub first-sort_by-filter-some :
      (le : A → A → Bool) (p : A → Bool) (xs : List A) (a : A)
      → p a ≡ true
      → Within a xs
      → (b : A) × (first (sort_by le (filter p xs)) ≡ some b)
  first-sort_by-filter-some le p [] a t w = absurd w
  first-sort_by-filter-some le p (x ∷ xs) a t w = elim (Bool-cases (p x)) [
    | inl px ↦ rw px (first-insert_by le x (sort_by le (filter p xs)))
    | inr px ↦ rw px (first-sort_by-filter-some le p xs a t (behind px w))
  ]
    where
      behind : p x ≡ false → (a ≡ x) ⊎ Within a xs → Within a xs
      behind px (inl e) = cc (px, t, ap p e)
      behind px (inr v) = v

  pub Within-All : (P : A → Type 0) (a : A) (xs : List A) → All P xs → Within a xs → P a
  Within-All P a (x ∷ xs) h (inl e) = subst P (sym e) h.0
  Within-All P a (x ∷ xs) h (inr w) = Within-All P a xs h.1 w
  Within-All P a [] h w = absurd w

  count-pos : (p : A → Bool) (a : A) (xs : List A) → p a ≡ true → Within a xs → 0 < count p xs
  count-pos p a [] t w = absurd w
  count-pos p a (x ∷ xs) t (inl e) = rw (← e, t) (omega arith)
  count-pos p a (x ∷ xs) t (inr w) = omega (arith, count-pos p a xs t w)

  -- Of rows that pass a test there is one value where at most one is counted.
  pub Within-unique :
      (p : A → Bool) (a b : A) (xs : List A)
      → count p xs ≤ 1
      → p a ≡ true
      → p b ≡ true
      → Within a xs
      → Within b xs
      → a ≡ b
  Within-unique p a b [] le s t v w = absurd v
  Within-unique p a b (x ∷ xs) le s t (inl e) (inl f) = e ∙ sym f
  Within-unique p a b (x ∷ xs) le s t (inl e) (inr w) =
      absurd (both (count-pos p b xs t w) (rw (← e, s) at le))
    where
      both : 0 < count p xs → 1 + count p xs ≤ 1 → ⊥
      both g h = omega arith
  Within-unique p a b (x ∷ xs) le s t (inr v) (inl f) =
      absurd (both (count-pos p a xs s v) (rw (← f, t) at le))
    where
      both : 0 < count p xs → 1 + count p xs ≤ 1 → ⊥
      both g h = omega arith
  Within-unique p a b (x ∷ xs) le s t (inr v) (inr w) = Within-unique p a b xs (omega arith) s t v w

module _ {A : Type 0} (p : A → Bool) where
  -- An update of rows that the filter passes over, and leaves so, is not seen by it.
  pub filter-update :
      (q : A → Bool) (f : A → A)
      → ((a : A) → q a ≡ true → p a ≡ false)
      → ((a : A) → q a ≡ true → p (f a) ≡ false)
      → (xs : List A) → filter p (update q f xs) ≡ filter p xs
  filter-update q f before after [] = refl
  filter-update q f before after (x ∷ xs) = elim (Bool-cases (q x)) [
    | inl e ↦ rw (e, after x e, before x e) (filter-update q f before after xs)
    | inr e ↦ rw (e, filter-update q f before after xs) refl
  ]

  pub filter-append_none :
      (xs : List A) (x : A) → p x ≡ false → filter p (xs ++ x ∷ []) ≡ filter p xs
  filter-append_none [] x e = rw e refl
  filter-append_none (y ∷ xs) x e = rw (filter-append_none xs x e) refl
