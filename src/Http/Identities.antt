-- ===== src/Http/Identities.antt =====
-- router.go: no two requests have the same identity.
use arda_wed_gateway.Base.{
  ℕ, ◌<◌, ◌≡◌, refl, sym, ap, ◌∙◌, [], ◌∷◌, ◌++◌, arith, ◌==◌, ==_iff, if◌then◌else◌, All,
  append_assoc, append-nil,
}
use arda_wed_gateway.Base.Text.{Text, decimal}
use arda_wed_gateway.Base.Text.Digits.{IsDigit, IsNumber, number, decimal-IsNumber, number-decimal}
use arda_wed_gateway.Base.Word.{pos, add64, word64}
use arda_wed_gateway.Http.Recorder.{next_request_id}

-- What stands behind the last dash of a text.
last_part : Text → Text → Text
last_part acc [] = acc
last_part acc (c ∷ cs) = if c == 45 then last_part [] cs else last_part (acc ++ (c ∷ [])) cs

last_part-dash : (acc s t : Text) → last_part acc (s ++ (45 ∷ t)) ≡ last_part [] t
unfolding last_part
last_part-dash acc [] t = refl
last_part-dash acc (c ∷ s) t =
    ground (arith, last_part-dash [] s t, last_part-dash (acc ++ (c ∷ [])) s t)

digits_stay : (acc t : Text) → All IsDigit t → last_part acc t ≡ acc ++ t
unfolding last_part
digits_stay acc [] h = sym (append-nil acc)
digits_stay acc (c ∷ t) h =
    ground
      (arith, h.0, ==_iff c 45, digits_stay (acc ++ (c ∷ [])) t h.1, append_assoc acc (c ∷ []) t)

number-digits : (t : Text) → IsNumber t → All IsDigit t
number-digits [] h = elim h [ ]
number-digits (c ∷ t) h = h

-- The number in an identity.
number_in : Text → ℕ
unfolding last_part number
number_in id = number 0 (last_part [] id)

number_in-next :
    (stamp : Text) (counter : ℕ) → number_in (next_request_id stamp counter).1 ≡ add64 counter 1
unfolding number_in next_request_id
number_in-next stamp counter =
    let n = add64 counter 1 in
    ap (number 0) (
      last_part-dash [] stamp (decimal (pos n))
      ∙ digits_stay [] (decimal (pos n)) (number-digits _ (decimal-IsNumber n)))
    ∙ number-decimal n

-- Two requests that are numbered at different counts have different identities, whatever the clock says
-- at each and even if both have the same time, as long as the counter is a 64-bit word.
pub next_request_id-injective :
    (stamp later : Text) (counter other : ℕ)
    → counter < word64
    → other < word64
    → (next_request_id stamp counter).1 ≡ (next_request_id later other).1
    → counter ≡ other
next_request_id-injective stamp later counter other h k e =
    let same : add64 counter 1 ≡ add64 other 1 =
      sym (number_in-next stamp counter) ∙ ap number_in e ∙ number_in-next later other in
    omega arith
