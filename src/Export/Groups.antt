-- ===== src/Export/Groups.antt =====
-- Groups in the order in which their keys come, as `groups.setdefault(key, []).append(row)` of
-- backend/export.py makes them.
use network_backend_article.Base.{String, Bool, ◌&&◌, List, [], ◌∷◌, ◌++◌, str_eq, if◌then◌else◌}
use network_backend_article.Base.Text.{text_leb}

module _ {K A : Type 0} (same : K → K → Bool) where
  abbrev pub put : K → A → List (K × List A) → List (K × List A)
  put k a [] = (k, a ∷ []) ∷ []
  put k a ((j, xs) ∷ gs) = if same j k then (j, xs ++ a ∷ []) ∷ gs else (j, xs) ∷ put k a gs

  -- The rows that pass the test, grouped by their keys.
  unfoldable pub group_from : (A → Bool) → (A → K) → List A → List (K × List A) → List (K × List A)
  group_from test key [] gs = gs
  group_from test key (a ∷ as') gs =
      group_from test key as' (if test a then put (key a) a gs else gs)

abbrev pub pair_eq : String × String → String × String → Bool
pair_eq (a, b) (c, d) = str_eq a c && str_eq b d

-- Tuples of texts are compared from the left.
abbrev pub pair_leb : String × String → String × String → Bool
pair_leb (a, b) (c, d) = if str_eq a c then text_leb b d else text_leb a c
