-- ===== src/State/Sqlite/Load.antt =====
-- store.go: loadEquipment, from the rows of its query to the map.
use arda_wed_gateway.Base.{
  ◌≡◌, refl, ap, ◌∙◌, Bool, true, false, ◌||◌, Option, none, some, List, [], ◌∷◌, arith,
  if◌then◌else◌,
}
use arda_wed_gateway.Base.Map.{Map, lookup, insert}
use arda_wed_gateway.Base.Map.Laws.{lookup-insert}
use arda_wed_gateway.Base.Map.Sorted.{keys}
use arda_wed_gateway.Base.Text.{Text, text_eq, text_eq→eq}
use arda_wed_gateway.Base.Text.Order.{sort_texts, insert_text}

-- A row whose Scan gives a slot and an item, or fails.
abbrev pub Scanned : Type 0
Scanned = Option (Text × Text)

-- The loop over the rows, each under its slot.
unfoldable pub collect : Map Text → List Scanned → Option (Map Text)
collect m [] = some m
collect m (none ∷ rs) = none
collect m (some (slot, item) ∷ rs) = collect (insert slot item m) rs

-- A missing slot reads as the empty item.
abbrev pub item_of : Option Text → Text
item_of none = []
item_of (some item) = item

-- The second loop, over the sorted slots.
unfoldable pub rebuild : Map Text → List Text → Map Text → Map Text
rebuild m [] ordered = ordered
rebuild m (slot ∷ slots) ordered = rebuild m slots (insert slot (item_of (lookup slot m)) ordered)

unfoldable pub in_order : Map Text → Map Text
unfolding rebuild sort_texts
in_order [] = []
in_order (e ∷ m) = rebuild (e ∷ m) (sort_texts (keys (e ∷ m))) []

abbrev ordered_or : Bool → Option (Map Text) → Option (Map Text)
ordered_or fails none = none
ordered_or fails (some m) = if fails then none else some (in_order m)

-- loadEquipment; `none` is an error, and `rows_fails` is about the iteration.
unfoldable pub load_equipment : Bool → List Scanned → Bool → Option (Map Text)
unfolding collect in_order
load_equipment query_fails rows rows_fails =
    if query_fails then none else ordered_or rows_fails (collect [] rows)

-- Whether a text is in a list.
has : Text → List Text → Bool
has k [] = false
has k (t ∷ ts) = text_eq t k || has k ts

has-insert_text :
    (k s : Text) (ts : List Text) → has k (insert_text s ts) ≡ (text_eq s k || has k ts)
unfolding has insert_text
has-insert_text k s [] = refl
has-insert_text k s (t ∷ ts) = ground (arith, has-insert_text k s ts)

has-sort_texts : (k : Text) (ts : List Text) → has k (sort_texts ts) ≡ has k ts
unfolding has sort_texts
has-sort_texts k [] = refl
has-sort_texts k (t ∷ ts) =
    has-insert_text k t (sort_texts ts) ∙ ap (λ b. text_eq t k || b) (has-sort_texts k ts)

abbrev is_there : Option Text → Bool
is_there none = false
is_there (some v) = true

has-keys : (k : Text) (m : Map Text) → has k (keys m) ≡ is_there (lookup k m)
unfolding has lookup
has-keys k [] = refl
has-keys k ((j, v) ∷ m) = ground (arith, has-keys k m)

same_key : (k j : Text) (m : Map Text) → text_eq k j ≡ true → lookup k m ≡ lookup j m
same_key k j m h = ap (λ i. lookup i m) (text_eq→eq k j h)

lookup-rebuild :
    (m : Map Text) (j : Text) (ks : List Text) (acc : Map Text)
    → lookup j (rebuild m ks acc) ≡ (if has j ks then some (item_of (lookup j m)) else lookup j acc)
unfolding rebuild has
lookup-rebuild m j [] acc = refl
lookup-rebuild m j (k ∷ ks) acc = ground (
  arith,
  lookup-rebuild m j ks (insert k (item_of (lookup k m)) acc),
  lookup-insert k j (item_of (lookup k m)) acc,
  same_key k j m,
)

back : (o : Option Text) → (if is_there o then some (item_of o) else none) ≡ o
back none = refl
back (some v) = refl

-- The second loop changes no entry.
lookup-in_order : (k : Text) (m : Map Text) → lookup k (in_order m) ≡ lookup k m
unfolding in_order lookup
lookup-in_order k [] = refl
lookup-in_order k (e ∷ m) =
    lookup-rebuild (e ∷ m) k (sort_texts (keys (e ∷ m))) []
    ∙ ap (λ b. if b then some (item_of (lookup k (e ∷ m))) else none)
        (has-sort_texts k (keys (e ∷ m)) ∙ has-keys k (e ∷ m))
    ∙ back (lookup k (e ∷ m))

abbrev pub scanned : List (Text × Text) → List Scanned
scanned [] = []
scanned (r ∷ rs) = some r ∷ scanned rs

abbrev or_else : Option Text → Option Text → Option Text
or_else none o = o
or_else (some v) o = some v

-- The item of the last row with a slot.
pub last_item : Text → List (Text × Text) → Option Text
last_item k [] = none
last_item k ((slot, item) ∷ rs) =
    or_else (last_item k rs) (if text_eq slot k then some item else none)

insert_all : Map Text → List (Text × Text) → Map Text
insert_all m [] = m
insert_all m ((slot, item) ∷ rs) = insert_all (insert slot item m) rs

collect-scanned :
    (m : Map Text) (rs : List (Text × Text)) → collect m (scanned rs) ≡ some (insert_all m rs)
unfolding collect insert_all
collect-scanned m [] = refl
collect-scanned m ((slot, item) ∷ rs) = collect-scanned (insert slot item m) rs

or_else_assoc :
    (a : Option Text) (b : Bool) (item : Text) (c : Option Text)
    → or_else a (if b then some item else c) ≡ or_else (or_else a (if b then some item else none)) c
or_else_assoc none true item c = refl
or_else_assoc none false item c = refl
or_else_assoc (some v) b item c = refl

lookup-insert_all :
    (k : Text) (rs : List (Text × Text)) (m : Map Text)
    → lookup k (insert_all m rs) ≡ or_else (last_item k rs) (lookup k m)
unfolding insert_all last_item
lookup-insert_all k [] m = refl
lookup-insert_all k ((slot, item) ∷ rs) m =
    lookup-insert_all k rs (insert slot item m)
    ∙ ap (or_else (last_item k rs)) (lookup-insert slot k item m)
    ∙ or_else_assoc (last_item k rs) (text_eq slot k) item (lookup k m)

or_else-none : (o : Option Text) → or_else o none ≡ o
or_else-none none = refl
or_else-none (some v) = refl

-- If the query, every Scan and the iteration succeed, loadEquipment returns a map that has under each
-- slot the item of the last row with this slot, and nothing under the slots of no row. The loop that
-- builds the map anew in the order of the slots changes no entry of it.
pub load_equipment-lookup :
    (rs : List (Text × Text))
    → (m : Map Text) × (load_equipment false (scanned rs) false ≡ some m)
      × ((k : Text) → lookup k m ≡ last_item k rs)
unfolding load_equipment lookup
load_equipment-lookup rs = (
  in_order (insert_all [] rs),
  ap (ordered_or false) (collect-scanned [] rs),
  λ k.
      lookup-in_order k (insert_all [] rs)
      ∙ lookup-insert_all k rs []
      ∙ or_else-none (last_item k rs),
)
