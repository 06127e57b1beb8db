-- ===== src/Gateway/Decoder/Repair.antt =====
-- What the repair of the letter Я does to a text.
use arda_wed_gateway.Base.{
  ℕ, ◌≡◌, ◌≢◌, ◌≤◌, ◌⊎◌, refl, sym, ◌∙◌, true, false, ◌&&◌, [], ◌∷◌, arith, ◌==◌, Bool-cases, inl,
  inr,
}
use arda_wed_gateway.Base.Text.{Text, text_eq, contains_rune}
use arda_wed_gateway.Gateway.Decoder.{
  upper_ya, lower_ya, is_lower_cyrillic, fix_rune, fix_runes, fix_smaug_ya_artifact,
}

-- The letters ё and а to я.
abbrev pub IsLowerCyrillic : ℕ → Type 0
IsLowerCyrillic r = (r ≡ 0x451) ⊎ ((0x430 ≤ r) × (r ≤ 0x44F))

-- No Я stands directly behind a lower-case Cyrillic letter; `prev` stands before the text.
abbrev pub IsClean : ℕ → Text → Type 0
IsClean prev [] = Unit {0}
IsClean prev (r ∷ rs) = (IsLowerCyrillic prev → r ≢ upper_ya) × IsClean r rs

fix_rune-clean : (prev r : ℕ) → IsLowerCyrillic prev → fix_rune prev r ≢ upper_ya
fix_rune-clean prev r (inl e) = ground arith
fix_rune-clean prev r (inr h) = ground arith

is_lower_cyrillic_sound : (r : ℕ) → is_lower_cyrillic r ≡ true → IsLowerCyrillic r
is_lower_cyrillic_sound r h = ground arith

is_lower_cyrillic_complete : (r : ℕ) → IsLowerCyrillic r → ¬ (is_lower_cyrillic r ≡ false)
is_lower_cyrillic_complete r (inl e) h = ground arith
is_lower_cyrillic_complete r (inr b) h = ground arith

clean_rune :
    (prev r : ℕ)
    → (IsLowerCyrillic prev → r ≢ upper_ya)
    → (r == upper_ya && is_lower_cyrillic prev) ≡ false
clean_rune prev r h = elim (Bool-cases (is_lower_cyrillic prev)) [
  | inl e ↦ let ne = h (is_lower_cyrillic_sound prev e) in ground arith
  | inr e ↦ ground arith
]

-- What the repair may do at one rune: a Я directly behind a lower-case Cyrillic letter becomes small,
-- and any other rune is kept.
abbrev pub IsRepairedRune : ℕ → ℕ → ℕ → Type 0
IsRepairedRune prev r out =
    (IsLowerCyrillic prev × (r ≡ upper_ya) × (out ≡ lower_ya))
    ⊎ ((¬ (IsLowerCyrillic prev × (r ≡ upper_ya))) × (out ≡ r))

-- One text is the repair of another, rune for rune; `prev` stands before the repaired one.
abbrev pub IsRepair : ℕ → Text → Text → Type 0
IsRepair prev [] [] = Unit {0}
IsRepair prev (r ∷ rs) (o ∷ os) = IsRepairedRune prev r o × IsRepair o rs os
IsRepair prev _ _ = ⊥

fix_runes-IsClean : (prev : ℕ) (s : Text) → IsClean prev (fix_runes prev s).0
unfolding fix_runes
fix_runes-IsClean prev [] = tt
fix_runes-IsClean prev (r ∷ rs) = (fix_rune-clean prev r, fix_runes-IsClean (fix_rune prev r) rs)

fix_runes-unchanged :
    (prev : ℕ) (s : Text) → (fix_runes prev s).1 ≡ false → (fix_runes prev s).0 ≡ s
unfolding fix_runes
fix_runes-unchanged prev [] h = refl
fix_runes-unchanged prev (r ∷ rs) h = ground (arith, fix_runes-unchanged (fix_rune prev r) rs)

fix_runes-keeps : (prev : ℕ) (s : Text) → IsClean prev s → (fix_runes prev s).0 ≡ s
unfolding fix_runes
fix_runes-keeps prev [] h = refl
fix_runes-keeps prev (r ∷ rs) h = ground (arith, clean_rune prev r h.0, fix_runes-keeps r rs h.1)

fix_rune-IsRepairedRune : (prev r : ℕ) → IsRepairedRune prev r (fix_rune prev r)
fix_rune-IsRepairedRune prev r = elim (Bool-cases (is_lower_cyrillic prev)) [
  | inr e ↦ inr ((λ p. is_lower_cyrillic_complete prev p.0 e), ground arith)
  | inl e ↦ elim (Bool-cases (r == upper_ya)) [
    | inl h ↦ inl (is_lower_cyrillic_sound prev e, ground arith, ground arith)
    | inr h ↦ inr ((λ p. let same = p.1 in ground arith), ground arith)
  ]
]

fix_runes-IsRepair : (prev : ℕ) (s : Text) → IsRepair prev s (fix_runes prev s).0
unfolding fix_runes
fix_runes-IsRepair prev [] = tt
fix_runes-IsRepair prev (r ∷ rs) =
    (fix_rune-IsRepairedRune prev r, fix_runes-IsRepair (fix_rune prev r) rs)

absent-unchanged :
    (prev : ℕ) (s : Text) → contains_rune s upper_ya ≡ false → (fix_runes prev s).0 ≡ s
unfolding fix_runes contains_rune
absent-unchanged prev [] h = refl
absent-unchanged prev (r ∷ rs) h = ground (arith, absent-unchanged (fix_rune prev r) rs)

-- The shortcuts for texts with nothing to repair return what the loop would.
fix-eq-loop : (s : Text) → fix_smaug_ya_artifact s ≡ (fix_runes 0 s).0
unfolding fix_smaug_ya_artifact text_eq
fix-eq-loop [] = refl
fix-eq-loop (r ∷ rs) = elim (Bool-cases (contains_rune (r ∷ rs) upper_ya)) [
  | inl e ↦ elim (Bool-cases (fix_runes 0 (r ∷ rs)).1) [
    | inl c ↦ rw (e, c)
    | inr c ↦ rw (e, c) (sym (fix_runes-unchanged 0 (r ∷ rs) c))
  ]
  | inr e ↦ rw e (sym (absent-unchanged 0 (r ∷ rs) e))
]

-- The repaired text has a small я wherever the text has a Я directly behind a letter that is, once
-- repaired, lower-case Cyrillic, and is the same in every other rune, so that a capital at the start
-- of a word survives; no Я is left directly behind a lower-case Cyrillic letter.
pub fix-IsClean :
    (s : Text) → IsClean 0 (fix_smaug_ya_artifact s) × IsRepair 0 s (fix_smaug_ya_artifact s)
fix-IsClean s = rw (fix-eq-loop s) (fix_runes-IsClean 0 s, fix_runes-IsRepair 0 s)

-- A text in which no Я stands directly behind a lower-case Cyrillic letter is left as it is: a
-- capital at the start of a word, or in a word of capitals, survives.
fix-keeps : (s : Text) → IsClean 0 s → fix_smaug_ya_artifact s ≡ s
fix-keeps s h = fix-eq-loop s ∙ fix_runes-keeps 0 s h
