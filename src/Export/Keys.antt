-- ===== src/Export/Keys.antt =====
-- The keys of the groups of backend/export.py, and of the rows that are made of them.
use network_backend_article.Base.{
  ◌≡◌, refl, String, Bool, true, not, Option, none, some, List, [], ◌∷◌, map, arith, inl, inr,
  str_eq, All, Bool-cases,
}
use network_backend_article.Base.Result.{Result, ok}
use network_backend_article.Base.Sorting.{Pairwise}
use network_backend_article.Export.Groups.{put, group_from}
use network_backend_article.Export.Rows.{collect}

abbrev pub differ : String → String → Bool
differ a b = not (str_eq a b)

-- The keys that stay of a list of keys, in its order.
pub data Sublist : List String → List String → Type 0 where
  done : Sublist [] []
  skip : {x : String} {xs ys : List String} → Sublist xs ys → Sublist xs (x ∷ ys)
  keep : {x : String} {xs ys : List String} → Sublist xs ys → Sublist (x ∷ xs) (x ∷ ys)

pub All-Sublist : (P : String → Type 0) {xs ys : List String} → Sublist xs ys → All P ys → All P xs
All-Sublist P done h = tt
All-Sublist P (skip s) h = All-Sublist P s h.1
All-Sublist P (keep s) h = (h.0, All-Sublist P s h.1)

pub Pairwise-Sublist :
    (r : String → String → Bool) {xs ys : List String}
    → Sublist xs ys
    → Pairwise r ys
    → Pairwise r xs
Pairwise-Sublist r done h = tt
Pairwise-Sublist r (skip s) h = Pairwise-Sublist r s h.1
Pairwise-Sublist r (keep {x = x} s) h =
    (All-Sublist (λ y. r x y ≡ true) s h.0, Pairwise-Sublist r s h.1)

module _ {B : Type 0} (key : B → String) where
  -- A row that is made has the key of its group.
  abbrev pub Fits : String → Option B → Type 0
  Fits k none = Unit
  Fits k (some b) = key b ≡ k

  abbrev pub Outcome : String → Result (Option B) → Type 0
  Outcome k r = (o : Option B) × (r ≡ ok o) × Fits k o

module _ {A B : Type 0} (f : A → Result (Option B)) (key : A → String) (key' : B → String) where
  abbrev pub Returns : A → Type 0
  Returns a = Outcome key' (key a) (f a)

  abbrev pub Collected : List A → Type 0
  Collected xs = (bs : List B) × (collect f xs ≡ ok bs) × Sublist (map key' bs) (map key xs)

  collect_step : (a : A) (xs : List A) → Returns a → Collected xs → Collected (a ∷ xs)
  unfolding collect
  collect_step a xs (none, e, fits) (bs, e', s) = (bs, rw (e, e') refl, skip s)
  collect_step a xs (some b, e, fits) (bs, e', s) = (b ∷ bs, rw (e, e') refl, rw fits (keep s))

  pub collect-Returns : (xs : List A) → All Returns xs → Collected xs
  unfolding collect
  collect-Returns [] h = ([], refl, done)
  collect-Returns (a ∷ xs) h = collect_step a xs h.0 (collect-Returns xs h.1)

module _ {K A : Type 0} (same : K → K → Bool) (P : K → Type 0) where
  abbrev pub AllKeys : List (K × List A) → Type 0
  AllKeys gs = All (λ g. P g.0) gs

  put-AllKeys :
      (k : K) (a : A) (gs : List (K × List A)) → P k → AllKeys gs → AllKeys (put same k a gs)
  put-AllKeys k a [] p h = (p, tt)
  put-AllKeys k a ((j, xs) ∷ gs) p h = elim (Bool-cases (same j k)) [
    | inl e ↦ rw e h
    | inr e ↦ rw e (h.0, put-AllKeys k a gs p h.1)
  ]

  -- What holds of the key of every row that passes the test holds of every group's key.
  pub group_from-AllKeys :
      (test : A → Bool) (key : A → K)
      → ((a : A) → test a ≡ true → P (key a))
      → (rows : List A) (gs : List (K × List A)) → AllKeys gs
      → AllKeys (group_from same test key rows gs)
  unfolding group_from
  group_from-AllKeys test key f [] gs h = h
  group_from-AllKeys test key f (a ∷ rows) gs h = elim (Bool-cases (test a)) [
    | inl e ↦ rw e (
        group_from-AllKeys test key f rows (put same (key a) a gs)
          (put-AllKeys (key a) a gs (f a e) h))
    | inr e ↦ rw e (group_from-AllKeys test key f rows gs h)
  ]

module _ {A : Type 0} where
  abbrev pub AreDistinct : List (String × List A) → Type 0
  AreDistinct gs = Pairwise differ (map (λ g. g.0) gs)

  put-apart :
      (j k : String) (a : A) (gs : List (String × List A))
      → differ j k ≡ true
      → All (λ i. differ j i ≡ true) (map (λ g. g.0) gs)
      → All (λ i. differ j i ≡ true) (map (λ g. g.0) (put str_eq k a gs))
  put-apart j k a [] d h = (d, tt)
  put-apart j k a ((i, xs) ∷ gs) d h = elim (Bool-cases (str_eq i k)) [
    | inl e ↦ rw e h
    | inr e ↦ rw e (h.0, put-apart j k a gs d h.1)
  ]

  put-AreDistinct :
      (k : String) (a : A) (gs : List (String × List A))
      → AreDistinct gs
      → AreDistinct (put str_eq k a gs)
  put-AreDistinct k a [] h = (tt, tt)
  put-AreDistinct k a ((j, xs) ∷ gs) h = elim (Bool-cases (str_eq j k)) [
    | inl e ↦ rw e h
    | inr e ↦ rw e (put-apart j k a gs (ground arith) h.0, put-AreDistinct k a gs h.1)
  ]

  -- The groups have different keys.
  pub group_from-AreDistinct :
      (test : A → Bool) (key : A → String) (rows : List A) (gs : List (String × List A))
      → AreDistinct gs
      → AreDistinct (group_from str_eq test key rows gs)
  unfolding group_from
  group_from-AreDistinct test key [] gs h = h
  group_from-AreDistinct test key (a ∷ rows) gs h = elim (Bool-cases (test a)) [
    | inl e ↦ rw e (
        group_from-AreDistinct test key rows (put str_eq (key a) a gs)
          (put-AreDistinct (key a) a gs h))
    | inr e ↦ rw e (group_from-AreDistinct test key rows gs h)
  ]
