-- ===== src/Base/Map/Sorted.antt =====
-- Lines of text for the entries of a map, in the order of its sorted keys.
use mathlib.Core.Path.{◌≡◌, refl, ap, ◌∙◌}
use mathlib.Core.Option.{Option}
use mathlib.Core.List.{List, [], ◌∷◌, ◌++◌, Perm}
use arda_wed_gateway.Base.Map.{Map, lookup}
use arda_wed_gateway.Base.Text.{Text}
use arda_wed_gateway.Base.Text.Order.{sort_texts, sort_texts-perm}

module _ {V : Type 0} where
  -- The order of the list stands for the order in which Go ranges over the map.
  abbrev pub keys : Map V → List Text
  keys [] = []
  keys ((k, v) ∷ m) = k ∷ keys m

  unfoldable pub lines_of : (Text → Option V → Text) → Map V → List Text → Text
  lines_of line m [] = []
  lines_of line m (k ∷ ks) = line k (lookup k m) ++ lines_of line m ks

  unfoldable pub sorted_lines : (Text → Option V → Text) → Map V → Text
  unfolding lines_of sort_texts
  sorted_lines line m = lines_of line m (sort_texts (keys m))

  lines_of-same :
      (line : Text → Option V → Text) (p q : Map V) (ks : List Text)
      → ((k : Text) → lookup k p ≡ lookup k q)
      → lines_of line p ks ≡ lines_of line q ks
  unfolding lines_of
  lines_of-same line p q [] e = refl
  lines_of-same line p q (k ∷ ks) e = rw (e k, lines_of-same line p q ks e)

  -- The lines are a function of the map, whatever the order of its entries.
  pub sorted_lines-perm :
      (line : Text → Option V → Text) (p q : Map V)
      → Perm (keys p) (keys q)
      → ((k : Text) → lookup k p ≡ lookup k q)
      → sorted_lines line p ≡ sorted_lines line q
  unfolding sorted_lines
  sorted_lines-perm line p q same e =
      ap (lines_of line p) (sort_texts-perm same) ∙ lines_of-same line p q (sort_texts (keys q)) e
