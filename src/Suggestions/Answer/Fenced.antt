-- ===== src/Suggestions/Answer/Fenced.antt =====
-- An answer in a Markdown fence.
use arda_wed_gateway.Base.{◌≡◌, refl, false, some, [], ◌∷◌, ◌++◌, arith}
use arda_wed_gateway.Base.Text.{Text, contains_rune, has_prefix}
use arda_wed_gateway.Base.Text.Search.{cut}
use arda_wed_gateway.Base.Text.Space.{trim_space, is_blank}
use arda_wed_gateway.Suggestions.Answer.{
  fence, inside_fence, behind_fence, strip_fence, normalize_suggestion_json,
}

-- The first fence behind a text with no back quote, and the first end of line behind one without any.
cut-fence :
    (x rest : Text)
    → contains_rune x b'`' ≡ false
    → cut (x ++ (fence ++ rest)) fence ≡ some (x, rest)
unfolding cut has_prefix contains_rune
cut-fence [] rest h = refl
cut-fence (c ∷ x) rest h = ground (arith, cut-fence x rest)

cut_newline :
    (x rest : Text) → contains_rune x 10 ≡ false → cut (x ++ (10 ∷ rest)) (10 ∷ []) ≡ some (x, rest)
unfolding cut has_prefix contains_rune
cut_newline [] rest h = refl
cut_newline (c ∷ x) rest h = ground (arith, cut_newline x rest)

-- Of an answer that, once trimmed, is any text with no back quote, a fence, the rest of its line, a
-- body with no back quote that is not blank, and a fence, whatever follows: the decoder is given the
-- body, trimmed.
pub normalize-fenced :
    (raw before lang body rest : Text)
    → trim_space raw ≡ before ++ (fence ++ (lang ++ (10 ∷ (body ++ (fence ++ rest)))))
    → contains_rune before b'`' ≡ false
    → contains_rune lang 10 ≡ false
    → contains_rune body b'`' ≡ false
    → is_blank body ≡ false
    → normalize_suggestion_json raw ≡ trim_space body
unfolding normalize_suggestion_json strip_fence behind_fence inside_fence
normalize-fenced raw before lang body rest e b l n k =
    rw
      (
        e,
        cut-fence before (lang ++ (10 ∷ (body ++ (fence ++ rest)))) b,
        cut_newline lang (body ++ (fence ++ rest)) l,
        cut-fence body rest n,
        k,
      )
      refl
