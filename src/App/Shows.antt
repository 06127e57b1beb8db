-- ===== src/App/Shows.antt =====
-- What a round of a reader hands on.
use arda_wed_gateway.Base.{ℕ, ◌≡◌, refl, ◌∙◌, ap, Option, some, List, [], ◌∷◌, ◌++◌, append-nil}
use arda_wed_gateway.Base.Text.{Text, codes}
use arda_wed_gateway.State.Service.{StateService}
use arda_wed_gateway.Gateway.Decoder.{decode}
use arda_wed_gateway.Gateway.Telnet.{TelnetFilter, filter_data}
use arda_wed_gateway.Gateway.Manager.{Clock, Manager, broadcast}
use arda_wed_gateway.Gateway.Manager.Disconnect.{failure}
use arda_wed_gateway.Gateway.Manager.Rounds.{round_end, read_round}
use arda_wed_gateway.Gateway.Manager.Texts.{texts, texts-append, upstream-texts}
use arda_wed_gateway.Gateway.Manager.Upstream.{
  Round, deadline_fails, reads, Next, goes_on, ends, reports, next_of, take_bytes, show_payload,
  on_terminal_output,
}
use arda_wed_gateway.App.{Platform, Reader, App}
use arda_wed_gateway.App.Sound.{effects-manager}
use arda_wed_gateway.App.Steps.{pass_on, read_by}

-- The text of a payload, if there is one.
abbrev pub text_of : (List ℕ → Option Text) → Text → List ℕ → List (Text × Text)
text_of decoder id [] = []
text_of decoder id (b ∷ bs) = (id, decode decoder (b ∷ bs)) ∷ []

-- The text of a round.
abbrev pub round_texts : (List ℕ → Option Text) → Text → Round → TelnetFilter → List (Text × Text)
round_texts decoder id (deadline_fails message) f = []
round_texts decoder id (reads bytes err) f = text_of decoder id (filter_data f bytes).1

show-texts :
    (decoder : List ℕ → Option Text) (id : Text) (clock : Clock) (payload : List ℕ) (m : Manager)
    → texts (show_payload decoder id clock payload m).effects
      ≡ text_of decoder id payload ++ texts m.effects
unfolding show_payload on_terminal_output broadcast texts
show-texts decoder id clock [] m = refl
show-texts decoder id clock (b ∷ bs) m = refl

bytes-texts :
    (decoder : List ℕ → Option Text) (id : Text) (clock : Clock) (bytes : List ℕ) (f : TelnetFilter)
    (m : Manager)
    → texts (take_bytes decoder id clock bytes f m).1.effects
      ≡ text_of decoder id (filter_data f bytes).1 ++ texts m.effects
unfolding take_bytes
bytes-texts decoder id clock [] f m = unfold filter_data in refl
bytes-texts decoder id clock (b ∷ bs) f m = show-texts decoder id clock (filter_data f (b ∷ bs)).1 m

end-texts :
    (id : Text) (clock : Clock) (n : Next) (s : TelnetFilter × Manager)
    → texts (round_end id clock n s).1.effects ≡ texts s.1.effects
unfolding round_end
end-texts id clock goes_on s = refl
end-texts id clock ends s = refl
end-texts id clock (reports err) s = upstream-texts id err clock s.1

read_round-texts :
    (decoder : List ℕ → Option Text) (id : Text) (clock : Clock) (r : Round) (f : TelnetFilter)
    (m : Manager)
    → texts (read_round decoder id clock r f m).1.effects
      ≡ round_texts decoder id r f ++ texts m.effects
unfolding read_round
read_round-texts decoder id clock (deadline_fails message) f m =
    upstream-texts id (failure (codes "set read deadline failed: " ++ message)) clock m
read_round-texts decoder id clock (reads bytes err) f m =
    end-texts id clock (next_of err) (take_bytes decoder id clock bytes f m)
    ∙ bytes-texts decoder id clock bytes f m

-- A round of a reader hands on one text for what the Telnet filter leaves of the bytes that it read,
-- decoded, under the reader's session; none if nothing is left or the round failed before its read;
-- and all that was handed on before it stays. It does so also in a round that ends the connection.
pub read_by-texts {ℓ κ} :
    {S : Type ℓ} {M : Type κ} (service : StateService S M) (p : Platform) (rd : Reader) (n : ℕ)
    (round : Round) (clock : Clock) (now : M) (a : App S)
    → texts (read_by service p (some rd) n round clock now a).router.manager.effects
      ≡ round_texts p.charset.decoder rd.session_id round rd.filter
        ++ texts a.router.manager.effects
unfolding read_by pass_on texts
read_by-texts service p rd n round clock now a =
    let start : Manager = record a.router.manager { effects = [] } in
    let m = (read_round p.charset.decoder rd.session_id clock round rd.filter start).1 in
    let old = a.router.manager.effects in
    ap (λ (k : Manager). texts k.effects)
      (effects-manager service p now m.effects
        (record a.router { manager = record m { effects = m.effects ++ old } }))
    ∙ texts-append m.effects old
    ∙ ap (λ l. l ++ texts old)
        (read_round-texts p.charset.decoder rd.session_id clock round rd.filter start
          ∙ append-nil (round_texts p.charset.decoder rd.session_id round rd.filter))
