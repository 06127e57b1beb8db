-- ===== src/Base/Text/Order.antt =====
-- The order of Go strings, and sort.Strings. UTF-8 keeps the order of code points.
use mathlib.Core.Path.{◌≡◌, refl, sym, ap, ◌∙◌}
use mathlib.Core.Bool.{Bool, true, false}
use mathlib.Core.List.{List, [], ◌∷◌, foldr, Perm}
use mathlib.Core.List.Perm
use native.Mathlib.Omega.{arith}
use arda_wed_gateway.Base.Tests.{◌==◌, ltb, if◌then◌else◌}
use arda_wed_gateway.Base.Text.{Text}

unfoldable pub text_leb : Text → Text → Bool
text_leb [] t = true
text_leb (x ∷ xs) [] = false
text_leb (x ∷ xs) (y ∷ ys) = let rest = text_leb xs ys in if x == y then rest else ltb x y

text_leb-antisym : (s t : Text) → text_leb s t ≡ true → text_leb t s ≡ true → s ≡ t
unfolding text_leb
text_leb-antisym [] [] h k = refl
text_leb-antisym [] (y ∷ ys) h k = cc
text_leb-antisym (x ∷ xs) [] h k = cc
text_leb-antisym (x ∷ xs) (y ∷ ys) h k = ground (arith, text_leb-antisym xs ys)

text_leb-total : (s t : Text) → text_leb s t ≡ false → text_leb t s ≡ true
unfolding text_leb
text_leb-total [] t h = cc
text_leb-total (x ∷ xs) [] h = refl
text_leb-total (x ∷ xs) (y ∷ ys) h = ground (arith, text_leb-total xs ys)

text_leb_trans : (r s t : Text) → text_leb r s ≡ true → text_leb s t ≡ true → text_leb r t ≡ true
unfolding text_leb
text_leb_trans [] s t h k = refl
text_leb_trans (x ∷ xs) [] t h k = cc
text_leb_trans (x ∷ xs) (y ∷ ys) [] h k = cc
text_leb_trans (x ∷ xs) (y ∷ ys) (z ∷ zs) h k = ground (arith, text_leb_trans xs ys zs)

unfoldable pub insert_text : Text → List Text → List Text
insert_text s [] = s ∷ []
insert_text s (t ∷ ts) =
    let rest = insert_text s ts in if text_leb s t then s ∷ t ∷ ts else t ∷ rest

-- sort.Strings
unfoldable pub sort_texts : List Text → List Text
unfolding insert_text
sort_texts [] = []
sort_texts (s ∷ ss) = insert_text s (sort_texts ss)

insert_text-swap :
    (r s : Text) (ts : List Text)
    → insert_text r (insert_text s ts) ≡ insert_text s (insert_text r ts)
unfolding insert_text
insert_text-swap r s [] = ground (arith, text_leb-antisym r s, text_leb-total r s)
insert_text-swap r s (t ∷ ts) = ground (
  arith,
  insert_text-swap r s ts,
  text_leb-antisym r s,
  text_leb-total r s,
  text_leb-total s r,
  text_leb_trans r s t,
  text_leb_trans s r t,
)

sort_texts-foldr : (ss : List Text) → sort_texts ss ≡ foldr insert_text [] ss
unfolding sort_texts
sort_texts-foldr [] = refl
sort_texts-foldr (s ∷ ss) = ap (insert_text s) (sort_texts-foldr ss)

-- The order in which a map gives its keys makes no difference once they are sorted.
pub sort_texts-perm : {ss ts : List Text} → Perm ss ts → sort_texts ss ≡ sort_texts ts
sort_texts-perm {ss} {ts} p =
    sort_texts-foldr ss
    ∙ Perm.foldr-eq {B = List Text} (hlevel) insert_text insert_text-swap p []
    ∙ sym (sort_texts-foldr ts)

-- Each text stands before the next.
abbrev pub IsSorted : List Text → Type 0
IsSorted [] = Unit {0}
IsSorted (s ∷ []) = Unit {0}
IsSorted (s ∷ t ∷ ts) = (text_leb s t ≡ true) × IsSorted (t ∷ ts)

insert_text-IsSorted : (s : Text) (ts : List Text) → IsSorted ts → IsSorted (insert_text s ts)
unfolding insert_text
insert_text-IsSorted s [] h = tt
insert_text-IsSorted s (t ∷ []) h = ground (arith, text_leb-total s t)
insert_text-IsSorted s (t ∷ u ∷ ts) h =
    ground (arith, insert_text-IsSorted s (u ∷ ts), text_leb-total s t)

pub sort_texts-IsSorted : (ss : List Text) → IsSorted (sort_texts ss)
unfolding sort_texts
sort_texts-IsSorted [] = tt
sort_texts-IsSorted (s ∷ ss) = insert_text-IsSorted s (sort_texts ss) (sort_texts-IsSorted ss)
