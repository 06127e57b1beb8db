-- ===== src/State/Parser/LastPrompt.antt =====
-- The prompt that parsePrompt finds in a text with others before it.
use arda_wed_gateway.Base.{
  ℕ, zero, suc, ◌-◌, ◌≡◌, ◌≤◌, ◌<◌, refl, ap, ◌∙◌, false, none, some, List, [], ◌∷◌, ◌++◌, arith,
  ◌==◌, length, length-append, All, Bool-cases, Option-cases, inl, inr,
}
use arda_wed_gateway.Base.Text.{Text, decimal, contains_rune}
use arda_wed_gateway.Base.Text.Digits.{IsDigit, IsNumber, decimal-IsNumber, number-decimal}
use arda_wed_gateway.Base.Word.{pos}
use arda_wed_gateway.State.Parser.Scan.{Part, char, match_at, find_all, prompt_regex, prompt_tail}
use arda_wed_gateway.State.Parser.Spans.{match_stops, IsWithout}
use arda_wed_gateway.State.Parser.Prompt.{atoi, atoi_all, prompt_from, last, parse_prompt}
use arda_wed_gateway.State.Parser.PromptLine.{pair, prompt_line, groups_of, match_prompt}

-- Values that an int holds.
abbrev pub Fits : ℕ → Type 0
Fits n = n < 0x8000000000000000

atoi-decimal : (n : ℕ) → Fits n → atoi (decimal (pos n)) ≡ some n
unfolding atoi
atoi-decimal n h = rw (number-decimal n) (ground arith)

find_none :
    (ps : List Part) (c : ℕ) (s : Text)
    → match_at ps (c ∷ s) ≡ none
    → find_all ps 0 (c ∷ s) ≡ find_all ps 0 s
unfolding find_all
find_none ps c s e = rw (e, find_all) refl

find_some :
    (ps : List Part) (c : ℕ) (s : Text) (g : List Text) (r : Text)
    → match_at ps (c ∷ s) ≡ some (g, r)
    → find_all ps 0 (c ∷ s) ≡ g ∷ find_all ps (length s - length r) s
unfolding find_all
find_some ps c s g r e = rw (e, find_all) refl

find_skip : (ps : List Part) (k c : ℕ) (s : Text) → find_all ps (suc k) (c ∷ s) ≡ find_all ps k s
unfolding find_all
find_skip ps k c s = refl

other_start :
    (ps : List Part) (c : ℕ) (s : Text)
    → (c == b'(') ≡ false
    → match_at (char b'(' ∷ ps) (c ∷ s) ≡ none
unfolding match_at
other_start ps c s h = rw h refl

-- Without an opening parenthesis there is no match.
none_open :
    (skip : ℕ) (s : Text) (ps : List Part)
    → contains_rune s b'(' ≡ false
    → find_all (char b'(' ∷ ps) skip s ≡ []
unfolding contains_rune
none_open skip [] ps h = unfold find_all in refl
none_open (suc skip) (c ∷ s) ps h = find_skip _ skip c s ∙ none_open skip s ps (ground arith)
none_open zero (c ∷ s) ps h =
    find_none (char b'(' ∷ ps) c s (other_start ps c s (ground arith))
    ∙ none_open 0 s ps (ground arith)

last-cons :
    (g : List Text) (ms : List (List Text)) (m : List Text)
    → last ms ≡ some m
    → last (g ∷ ms) ≡ some m
unfolding last
last-cons g [] m e = absurd (cc)
last-cons g (n ∷ ms) m e = e

open_inv :
    (ps : List Part) (c : ℕ) (s : Text) (g : List Text) (r : Text)
    → match_at (char b'(' ∷ ps) (c ∷ s) ≡ some (g, r)
    → match_at ps s ≡ some (g, r)
open_inv ps c s g r e = elim (Bool-cases (c == b'(')) [
  | inl q ↦ (unfold match_at in rw q at e)
  | inr q ↦ absurd (let n = other_start ps c s q in cc)
]

-- A match that begins before an opening parenthesis ends before it, so that one behind it is found.
last_behind :
    (ps : List Part) (skip : ℕ) (pre s : Text) (m : List Text)
    → IsWithout b'(' ps
    → skip ≤ length pre
    → last (find_all (char b'(' ∷ ps) 0 (b'(' ∷ s)) ≡ some m
    → last (find_all (char b'(' ∷ ps) skip (pre ++ (b'(' ∷ s))) ≡ some m
last_behind ps zero [] s m w l e = e
last_behind ps (suc skip) [] s m w l e = absurd (omega arith)
last_behind ps (suc skip) (c ∷ pre) s m w l e =
    ap last (find_skip _ skip c (pre ++ (b'(' ∷ s))) ∙ last_behind ps skip pre s m w (omega arith) e
last_behind ps zero (c ∷ pre) s m w l e =
    elim (Option-cases (match_at (char b'(' ∷ ps) (c ∷ (pre ++ (b'(' ∷ s))))) [
      | inl q ↦
          ap last (find_none (char b'(' ∷ ps) c (pre ++ (b'(' ∷ s)) q)
          ∙ last_behind ps 0 pre s m w (omega arith) e
      | inr ((g, r), q) ↦
          let kept : suc (length s) ≤ length r =
            match_stops ps pre b'(' s g r refl refl w (open_inv ps c (pre ++ (b'(' ∷ s)) g r q) in
          ap last (find_some (char b'(' ∷ ps) c (pre ++ (b'(' ∷ s)) g r q)
          ∙ last-cons g _ m (
              last_behind ps (length (pre ++ (b'(' ∷ s)) - length r) pre s m w
                (omega (arith, length-append pre (b'(' ∷ s))) e)
    ]

digits_closed :
    (x : Text) (rest : Text)
    → All IsDigit x
    → contains_rune rest b'(' ≡ false
    → contains_rune (x ++ rest) b'(' ≡ false
unfolding contains_rune
digits_closed [] rest h r = r
digits_closed (c ∷ x) rest h r = ground (arith, digits_closed x rest h.1 r, h.0)

IsNumber-All : (x : Text) → IsNumber x → All IsDigit x
IsNumber-All [] h = absurd h
IsNumber-All (c ∷ x) h = h

number_closed :
    (n : ℕ) (rest : Text)
    → contains_rune rest b'(' ≡ false
    → contains_rune (decimal (pos n) ++ rest) b'(' ≡ false
number_closed n rest h =
    digits_closed (decimal (pos n)) rest (IsNumber-All (decimal (pos n)) (decimal-IsNumber n)) h

pair_closed :
    (a b : ℕ) (rest : Text)
    → contains_rune rest b'(' ≡ false
    → contains_rune (pair a b rest) b'(' ≡ false
pair_closed a b rest h = number_closed a _ (unfold contains_rune in number_closed b rest h)

find_prompt :
    (a b c d e f g : ℕ) (post : Text)
    → contains_rune post b'(' ≡ false
    → last (find_all prompt_regex 0 (prompt_line a b c d e f g post))
      ≡ some (groups_of a b c d e f g)
find_prompt a b c d e f g post h =
    ap last (
      find_some prompt_regex b'(' _ (groups_of a b c d e f g) post (match_prompt a b c d e f g post)
      ∙ ap (λ (ms : List (List Text)). groups_of a b c d e f g ∷ ms) (none_open _ _ _ closed))
    ∙ unfold last in refl
  where
    closed :
        contains_rune
          (pair a b
            (32 ∷ pair c d (32 ∷ pair e f (32 ∷ (decimal (pos g) ++ (32 ∷ b'|' ∷ b')' ∷ post))))))
          b'('
        ≡ false
    closed =
        pair_closed a b _
          (unfold contains_rune in pair_closed c d _ (pair_closed e f _ (number_closed g _ h)))

IsWithout-open : IsWithout b'(' prompt_tail
IsWithout-open = omega arith

-- In a text with a prompt of seven values that an int holds, and no opening parenthesis behind it, the
-- parser finds these seven values, whatever stands before the prompt: other prompts, tags, or a prompt
-- that is cut off.
pub parse_prompt-last :
    (pre post : Text) (a b c d e f g : ℕ)
    → contains_rune post b'(' ≡ false
    → Fits a
    → Fits b
    → Fits c
    → Fits d
    → Fits e
    → Fits f
    → Fits g
    → parse_prompt (pre ++ prompt_line a b c d e f g post)
      ≡ some (record {
        hp_current = pos a;
        hp_max = pos b;
        ma_current = pos c;
        ma_max = pos d;
        mv_current = pos e;
        mv_max = pos f;
        exp = pos g;
      })
unfolding parse_prompt atoi_all prompt_from
parse_prompt-last pre post a b c d e f g h fa fb fc fd fe ff fg =
    let behind : last (find_all prompt_regex 0 (pre ++ prompt_line a b c d e f g post))
        ≡ some (groups_of a b c d e f g) =
      last_behind prompt_tail 0 pre _ (groups_of a b c d e f g) IsWithout-open (omega arith)
        (find_prompt a b c d e f g post h) in
    rw
      (
        behind,
        atoi-decimal a fa,
        atoi-decimal b fb,
        atoi-decimal c fc,
        atoi-decimal d fd,
        atoi-decimal e fe,
        atoi-decimal f ff,
        atoi-decimal g fg,
      )
      refl
