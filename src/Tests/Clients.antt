-- ===== src/Tests/Clients.antt =====
-- hub.go at concrete clients.
use arda_wed_gateway.Base.{
  ℕ, ◌++◌, Option, none, some, if◌then◌else◌, List, ◌≡◌, refl, true, false, [], ◌∷◌,
}
use arda_wed_gateway.Base.Text.{codes}
use arda_wed_gateway.Gateway.WsFrame.Pump.{
  PumpOutcome, done, no_write, write_pump, frames_of, write_pump-prefix,
}
use arda_wed_gateway.Gateway.Event.{TerminalEvent}
use arda_wed_gateway.Gateway.Metrics.{Metrics, new_metrics}
use arda_wed_gateway.Gateway.Hub.{
  Hub, new_hub, add, remove, find, is_registered, broadcast_each, broadcast,
}
use arda_wed_gateway.Gateway.Hub.Registry.{IsValid, new_hub-IsValid, add-IsValid}
use arda_wed_gateway.Gateway.Hub.Delivery.{member, map_client, deliver, broadcast-find}
use arda_wed_gateway.Gateway.Hub.Races.{remove_then_send_panics}

abbrev greeting : TerminalEvent
greeting = record {
  event = codes "terminal.output";
  session_id = codes "s-1";
  connected = false;
  text = codes "hi";
  queue_depth = 0;
  queue_max = 0;
  queue_reject_code = [];
  timestamp = codes "now";
}

abbrev one_client_metrics : Metrics
one_client_metrics = (add new_metrics new_hub).0

abbrev one_client : Hub
one_client = (add new_metrics new_hub).1

one_client-IsValid : IsValid one_client_metrics one_client
one_client-IsValid = add-IsValid new_metrics new_hub new_hub-IsValid

broadcast-find_example :
    IsValid
      (broadcast greeting one_client_metrics one_client).0
      (broadcast greeting one_client_metrics one_client).1
    × ((j : ℕ)
        → find j (broadcast greeting one_client_metrics one_client).1.clients
          ≡ map_client (deliver greeting) (find j one_client.clients))
broadcast-find_example = broadcast-find greeting one_client_metrics one_client one_client-IsValid

first_is_registered : is_registered (find 0 one_client.clients) ≡ true
unfolding add find
first_is_registered = refl

first_is_listed : member 0 (0 ∷ []) ≡ true
unfolding member
first_is_listed = refl

remove_then_send_panics_example :
    (broadcast_each greeting (0 ∷ []) (remove 0 one_client_metrics one_client)).1.crashed ≡ true
remove_then_send_panics_example =
    remove_then_send_panics greeting 0 (0 ∷ []) one_client_metrics one_client first_is_registered
      first_is_listed

-- Only the greeting has a JSON.
abbrev marshal_output : TerminalEvent → Option (List ℕ)
marshal_output e = if e.connected then none else some (123 ∷ 125 ∷ [])

abbrev broken_off : List (TerminalEvent × PumpOutcome)
broken_off = (greeting, done) ∷ (greeting, no_write) ∷ (greeting, done) ∷ []

write_pump-prefix_example :
    (missing : List (List ℕ)) × (write_pump marshal_output broken_off ++ missing
      ≡ frames_of marshal_output broken_off)
write_pump-prefix_example = write_pump-prefix marshal_output broken_off
