-- ===== src/Gateway/Manager/Rounds.antt =====
-- manager.go: one round of the reader of a connection, so that other calls may come between two.
use arda_wed_gateway.Base.{ℕ, ◌≡◌, refl, Option, none, some, List, [], ◌∷◌, ◌++◌}
use arda_wed_gateway.Base.Text.{Text, codes}
use arda_wed_gateway.Gateway.Telnet.{TelnetFilter}
use arda_wed_gateway.Gateway.Manager.{Clock, Manager}
use arda_wed_gateway.Gateway.Manager.Disconnect.{failure, handle_upstream_disconnect}
use arda_wed_gateway.Gateway.Manager.Upstream.{
  Round, deadline_fails, reads, take_bytes, Next, goes_on, ends, reports, next_of, after_read,
  read_rounds,
}

-- What is left of the reader behind a round: the filter of the next one, or nothing.
unfoldable pub round_end :
    Text → Clock → Next → TelnetFilter × Manager → Option TelnetFilter × Manager
unfolding handle_upstream_disconnect
round_end id clock goes_on (f, m) = (some f, m)
round_end id clock ends (f, m) = (none, m)
round_end id clock (reports err) (f, m) = (none, handle_upstream_disconnect id err clock m)

unfoldable pub read_round :
    (List ℕ → Option Text)
    → Text
    → Clock
    → Round
    → TelnetFilter
    → Manager
    → Option TelnetFilter × Manager
unfolding round_end take_bytes next_of handle_upstream_disconnect
read_round decoder id clock (deadline_fails message) f m = (
  none,
  handle_upstream_disconnect id (failure (codes "set read deadline failed: " ++ message)) clock m,
)
read_round decoder id clock (reads bytes err) f m =
    round_end id clock (next_of err) (take_bytes decoder id clock bytes f m)

module _ (decoder : List ℕ → Option Text) (id : Text) where
  -- The rounds until one leaves nothing of the reader.
  pub rounds : List (Clock × Round) → Option TelnetFilter → Manager → Manager
  rounds l none m = m
  rounds [] (some f) m = m
  rounds ((clock, r) ∷ l) (some f) m =
      let (left, m1) = read_round decoder id clock r f m in rounds l left m1

  rounds_over : (l : List (Clock × Round)) (m : Manager) → rounds l none m ≡ m
  unfolding rounds
  rounds_over [] m = refl
  rounds_over (x ∷ l) m = refl

  -- The loop of the reader is its rounds, one after the other.
  pub rounds-read_rounds :
      (l : List (Clock × Round)) (f : TelnetFilter) (m : Manager)
      → rounds l (some f) m ≡ read_rounds decoder id l f m
  unfolding rounds read_rounds read_round
  rounds-read_rounds [] f m = refl
  rounds-read_rounds ((clock, deadline_fails message) ∷ l) f m = rounds_over l _
  rounds-read_rounds ((clock, reads bytes err) ∷ l) f m =
      next l (next_of err) (take_bytes decoder id clock bytes f m) (
        rounds-read_rounds l (take_bytes decoder id clock bytes f m).0
          (take_bytes decoder id clock bytes f m).1)
    where
      next :
          (l : List (Clock × Round)) (n : Next) (s : TelnetFilter × Manager)
          → rounds l (some s.0) s.1 ≡ read_rounds decoder id l s.0 s.1
          → rounds l (round_end id clock n s).0 (round_end id clock n s).1
            ≡ after_read id clock n (read_rounds decoder id l s.0 s.1) s.1
      next l goes_on s h = unfold round_end after_read in h
      next l ends s h = unfold round_end after_read in rounds_over l _
      next l (reports err) s h = unfold round_end after_read in rounds_over l _
