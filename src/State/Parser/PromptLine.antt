-- ===== src/State/Parser/PromptLine.antt =====
-- The regular expression of the prompt on a prompt as the game writes it.
use arda_wed_gateway.Base.{ℕ, ◌≡◌, refl, ap, ◌∙◌, false, some, List, [], ◌∷◌, ◌++◌, arith}
use arda_wed_gateway.Base.Text.{Text, decimal}
use arda_wed_gateway.Base.Text.Digits.{IsNumber, decimal-IsNumber}
use arda_wed_gateway.Base.Word.{pos}
use arda_wed_gateway.State.Parser.Scan.{
  is_digit, is_blank_char, span, Part, char, blanks, some_blanks, digits, Found, with_group,
  match_at, prompt_regex,
}
use arda_wed_gateway.State.Parser.Spans.{span_none, span-All}

-- A number with something behind it that is no digit.
digits_step :
    (ps : List Part) (x : Text) (c : ℕ) (s : Text)
    → IsNumber x
    → is_digit c ≡ false
    → match_at (digits ∷ ps) (x ++ (c ∷ s)) ≡ with_group x (match_at ps (c ∷ s))
unfolding match_at
digits_step ps [] c s h n = absurd h
digits_step ps (d ∷ x) c s h n = rw (span-All is_digit (d ∷ x) c s h n) refl

no_blanks : (x : Text) (s : Text) → IsNumber x → span is_blank_char (x ++ s) ≡ ([], x ++ s)
no_blanks [] s h = absurd h
no_blanks (d ∷ x) s h = span_none is_blank_char d (x ++ s) (ground (arith, h.0))

blanks_step :
    (ps : List Part) (x : Text) (c : ℕ) (s : Text)
    → IsNumber x
    → is_digit c ≡ false
    → match_at (blanks ∷ digits ∷ ps) (x ++ (c ∷ s)) ≡ with_group x (match_at ps (c ∷ s))
blanks_step ps x c s h n = unfold match_at in rw (no_blanks x (c ∷ s) h) (digits_step ps x c s h n)

space_step :
    (ps : List Part) (x : Text) (c : ℕ) (s : Text)
    → IsNumber x
    → is_digit c ≡ false
    → match_at (some_blanks ∷ digits ∷ ps) (32 ∷ (x ++ (c ∷ s)))
      ≡ with_group x (match_at ps (c ∷ s))
space_step ps x c s h n =
    unfold match_at span in rw (no_blanks x (c ∷ s) h) (digits_step ps x c s h n)

slash_step :
    (ps : List Part) (s : Text) → match_at (blanks ∷ char b'/' ∷ ps) (b'/' ∷ s) ≡ match_at ps s
unfolding match_at span
slash_step ps s = refl

-- A pair of vitals with its slash: the first number behind `lead`, and what follows the second.
abbrev pub pair : ℕ → ℕ → Text → Text
pair a b rest = decimal (pos a) ++ (b'/' ∷ (decimal (pos b) ++ rest))

-- A prompt as the game writes it, and the text behind it.
abbrev pub prompt_line : ℕ → ℕ → ℕ → ℕ → ℕ → ℕ → ℕ → Text → Text
prompt_line a b c d e f g post =
    b'('
    ∷ pair a b (32 ∷ pair c d (32 ∷ pair e f (32 ∷ (decimal (pos g) ++ (32 ∷ b'|' ∷ b')' ∷ post)))))

abbrev pub groups_of : ℕ → ℕ → ℕ → ℕ → ℕ → ℕ → ℕ → List Text
groups_of a b c d e f g =
    decimal (pos a)
    ∷ decimal (pos b)
    ∷ decimal (pos c)
    ∷ decimal (pos d)
    ∷ decimal (pos e)
    ∷ decimal (pos f)
    ∷ decimal (pos g)
    ∷ []

blank_pair :
    (ps : List Part) (a b c : ℕ) (s : Text)
    → is_digit c ≡ false
    → match_at (blanks ∷ digits ∷ blanks ∷ char b'/' ∷ blanks ∷ digits ∷ ps) (pair a b (c ∷ s))
      ≡ with_group (decimal (pos a)) (with_group (decimal (pos b)) (match_at ps (c ∷ s)))
blank_pair ps a b c s n =
    blanks_step _ (decimal (pos a)) b'/' (decimal (pos b) ++ (c ∷ s)) (decimal-IsNumber a) refl
    ∙ ap (with_group (decimal (pos a)))
        (slash_step _ _ ∙ blanks_step ps (decimal (pos b)) c s (decimal-IsNumber b) n)

space_pair :
    (ps : List Part) (a b c : ℕ) (s : Text)
    → is_digit c ≡ false
    → match_at
        (some_blanks ∷ digits ∷ blanks ∷ char b'/' ∷ blanks ∷ digits ∷ ps)
        (32 ∷ pair a b (c ∷ s))
      ≡ with_group (decimal (pos a)) (with_group (decimal (pos b)) (match_at ps (c ∷ s)))
space_pair ps a b c s n =
    space_step _ (decimal (pos a)) b'/' (decimal (pos b) ++ (c ∷ s)) (decimal-IsNumber a) refl
    ∙ ap (with_group (decimal (pos a)))
        (slash_step _ _ ∙ blanks_step ps (decimal (pos b)) c s (decimal-IsNumber b) n)

prompt_end :
    (post : Text)
    → match_at (some_blanks ∷ char b'|' ∷ blanks ∷ char b')' ∷ []) (32 ∷ b'|' ∷ b')' ∷ post)
      ≡ some ([], post)
unfolding match_at span
prompt_end post = refl

open_step : (ps : List Part) (s : Text) → match_at (char b'(' ∷ ps) (b'(' ∷ s) ≡ match_at ps s
unfolding match_at
open_step ps s = refl

pub match_prompt :
    (a b c d e f g : ℕ) (post : Text)
    → match_at prompt_regex (prompt_line a b c d e f g post) ≡ some (groups_of a b c d e f g, post)
match_prompt a b c d e f g post =
    open_step _ _
    ∙ blank_pair _ a b 32 _ refl
    ∙ ap (λ (r : Found). with_group (decimal (pos a)) (with_group (decimal (pos b)) r))
        (space_pair _ c d 32 _ refl
          ∙ ap (λ (r : Found). with_group (decimal (pos c)) (with_group (decimal (pos d)) r))
              (space_pair _ e f 32 _ refl
                ∙ ap (λ (r : Found). with_group (decimal (pos e)) (with_group (decimal (pos f)) r))
                    (space_step _ (decimal (pos g)) 32 _ (decimal-IsNumber g) refl
                      ∙ ap (with_group (decimal (pos g))) (prompt_end post))))
