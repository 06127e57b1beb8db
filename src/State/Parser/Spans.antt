-- ===== src/State/Parser/Spans.antt =====
-- The matchers on a text with an opening parenthesis in it: what matches before it stays before it.
use arda_wed_gateway.Base.{
  ℕ, suc, ◌≡◌, ◌≢◌, ◌≤◌, refl, sym, ap, Bool, true, false, Option, none, some, List, [], ◌∷◌, ◌++◌,
  arith, ◌==◌, length, length-append, All, if◌then◌else◌, Bool-cases, ==_iff, inl, inr,
}
use arda_wed_gateway.Base.Text.{Text}
use arda_wed_gateway.State.Parser.Scan.{
  is_digit, is_blank_char, span, Part, char, blanks, some_blanks, digits, Found, with_group,
  is_empty, match_at,
}

-- A text that starts with a character outside the class.
pub span_none : (p : ℕ → Bool) (c : ℕ) (s : Text) → p c ≡ false → span p (c ∷ s) ≡ ([], c ∷ s)
unfolding span
span_none p c s h = rw h refl

-- A text of the class, with such a character behind it.
pub span-All :
    (p : ℕ → Bool) (x : Text) (c : ℕ) (s : Text)
    → All (λ d. p d ≡ true) x
    → p c ≡ false
    → span p (x ++ (c ∷ s)) ≡ (x, c ∷ s)
unfolding span
span-All p [] c s a h = span_none p c s h
span-All p (d ∷ x) c s a h = rw (a.0, span-All p x c s a.1 h) refl

-- A span does not reach over a character outside its class.
pub span_stops :
    (p : ℕ → Bool) (x : Text) (c : ℕ) (s : Text)
    → p c ≡ false
    → (y : Text) × ((span p (x ++ (c ∷ s))).1 ≡ y ++ (c ∷ s))
unfolding span
span_stops p [] c s h = ([], ap (λ (r : Text × Text). r.1) (span_none p c s h))
span_stops p (d ∷ x) c s h =
    let (y, e) = span_stops p x c s h in
    elim (Bool-cases (p d)) [ inl q ↦ (y, rw q e) | inr q ↦ (d ∷ x, rw q refl) ]

-- No part of the pattern is this character, which is neither white nor a digit.
abbrev pub IsWithout : ℕ → List Part → Type 0
IsWithout c [] = Unit {0}
IsWithout c (char d ∷ ps) = (d ≢ c) × IsWithout c ps
IsWithout c (blanks ∷ ps) = IsWithout c ps
IsWithout c (some_blanks ∷ ps) = IsWithout c ps
IsWithout c (digits ∷ ps) = IsWithout c ps

with_group-inv :
    (g : Text) (o : Found) (gs : List Text) (r : Text)
    → with_group g o ≡ some (gs, r)
    → (hs : List Text) × (o ≡ some (hs, r))
with_group-inv g none gs r e = absurd (cc)
with_group-inv g (some (hs, q)) gs r e = (hs, ground arith)

else_some :
    {A : Type 0} (b : Bool) (o : Option A) (v : A) → (if b then none else o) ≡ some v → o ≡ some v
else_some true o v e = absurd (cc)
else_some false o v e = e

then_some :
    {A : Type 0} (b : Bool) (o : Option A) (v : A)
    → (if b then o else none) ≡ some v
    → (b ≡ true) × (o ≡ some v)
then_some true o v e = (refl, e)
then_some false o v e = absurd (cc)

-- A match of such a pattern leaves at least the character and what is behind it.
pub match_stops :
    (ps : List Part) (x : Text) (c : ℕ) (s : Text) (gs : List Text) (r : Text)
    → is_blank_char c ≡ false
    → is_digit c ≡ false
    → IsWithout c ps
    → match_at ps (x ++ (c ∷ s)) ≡ some (gs, r)
    → suc (length s) ≤ length r
unfolding match_at
match_stops [] x c s gs r b d w e =
    let same : x ++ (c ∷ s) ≡ r = ground arith in
    omega (arith, length-append x (c ∷ s), ap length same)
match_stops (char k ∷ ps) [] c s gs r b d w e =
    absurd (w.0 (sym ((==_iff c k).0 (then_some (c == k) _ _ e).0)))
match_stops (char k ∷ ps) (y ∷ x) c s gs r b d w e =
    match_stops ps x c s gs r b d w.1 (then_some (y == k) _ _ e).1
match_stops (blanks ∷ ps) x c s gs r b d w e =
    let (y, q) = span_stops is_blank_char x c s b in match_stops ps y c s gs r b d w (rw q at e)
match_stops (some_blanks ∷ ps) x c s gs r b d w e =
    let (y, q) = span_stops is_blank_char x c s b in
    match_stops ps y c s gs r b d w (
      rw q at (
        else_some (is_empty (span is_blank_char (x ++ (c ∷ s))).0)
          (match_at ps (span is_blank_char (x ++ (c ∷ s))).1) (gs, r) e))
match_stops (digits ∷ ps) x c s gs r b d w e =
    let (y, q) = span_stops is_digit x c s d in
    let (hs, f) =
      with_group-inv (span is_digit (x ++ (c ∷ s))).0 (match_at ps (span is_digit (x ++ (c ∷ s))).1)
        gs r (else_some (is_empty (span is_digit (x ++ (c ∷ s))).0) _ (gs, r) e) in
    match_stops ps y c s hs r b d w (rw q at f)
