-- ===== src/State/Parser/SortedTags.antt =====
-- Sorting keeps which tags there are, and that each is there once.
use arda_wed_gateway.Base.{◌≡◌, refl, ap, ◌∙◌, Bool, false, ◌||◌, List, [], ◌∷◌, arith}
use arda_wed_gateway.Base.Text.{Text, text_eq}
use arda_wed_gateway.Base.Text.Order.{insert_text, sort_texts}
use arda_wed_gateway.State.Parser.Tags.{holds}

-- No tag is there twice.
abbrev pub IsOnce : List Text → Type 0
IsOnce [] = Unit {0}
IsOnce (t ∷ ts) = (holds t ts ≡ false) × IsOnce ts

holds-insert :
    (t s : Text) (ts : List Text) → holds t (insert_text s ts) ≡ (text_eq s t || holds t ts)
unfolding holds insert_text
holds-insert t s [] = refl
holds-insert t s (u ∷ ts) = ground (arith, holds-insert t s ts)

pub holds-sort : (t : Text) (ts : List Text) → holds t (sort_texts ts) ≡ holds t ts
unfolding holds sort_texts
holds-sort t [] = refl
holds-sort t (s ∷ ts) =
    holds-insert t s (sort_texts ts) ∙ ap (λ (b : Bool). text_eq s t || b) (holds-sort t ts)

text_eq_sym : (s t : Text) → text_eq s t ≡ text_eq t s
unfolding text_eq
text_eq_sym [] [] = refl
text_eq_sym [] (y ∷ ys) = refl
text_eq_sym (x ∷ xs) [] = refl
text_eq_sym (x ∷ xs) (y ∷ ys) = ground (arith, text_eq_sym xs ys)

insert-IsOnce :
    (s : Text) (ts : List Text) → holds s ts ≡ false → IsOnce ts → IsOnce (insert_text s ts)
unfolding insert_text holds
insert-IsOnce s [] h o = (refl, tt)
insert-IsOnce s (u ∷ ts) h o =
    ground (arith, holds-insert u s ts, text_eq_sym s u, insert-IsOnce s ts)

pub sort-IsOnce : (ts : List Text) → IsOnce ts → IsOnce (sort_texts ts)
unfolding sort_texts
sort-IsOnce [] o = tt
sort-IsOnce (s ∷ ts) o =
    insert-IsOnce s (sort_texts ts) (holds-sort s ts ∙ o.0) (sort-IsOnce ts o.1)
