-- ===== src/Gateway/Manager/Upstream.antt =====
-- manager.go: the loop that reads a connection, and what it does with the bytes.
use arda_wed_gateway.Base.{ℕ, false, Option, none, some, List, [], ◌∷◌, ◌++◌, if◌then◌else◌}
use arda_wed_gateway.Base.Text.{Text, codes, text_eq}
use arda_wed_gateway.Gateway.Decoder.{decode}
use arda_wed_gateway.Gateway.Event.{TerminalEvent}
use arda_wed_gateway.Gateway.Manager.{Clock, Session, Manager, on_terminal, broadcast}
use arda_wed_gateway.Gateway.Manager.Disconnect.{ReadFailure, failure, handle_upstream_disconnect}
use arda_wed_gateway.Gateway.Telnet.{TelnetFilter, filter_data, state_data}

unfoldable pub output_event : Text → Text → Text → TerminalEvent
output_event session_id text stamp = record {
  event = codes "terminal.output";
  session_id = session_id;
  connected = false;
  text = text;
  queue_depth = 0;
  queue_max = 0;
  queue_reject_code = [];
  timestamp = stamp;
}

unfoldable pub touch : Text → ℕ → Option Session → Option Session
touch session_id now none = none
touch session_id now (some s) =
    if text_eq s.id session_id then some (record s { last_activity = now }) else some s

-- onTerminalOutput; the callback itself is the application's.
unfoldable pub on_terminal_output : Text → Text → Clock → Manager → Manager
unfolding touch output_event
on_terminal_output session_id text clock m =
    broadcast (output_event session_id text clock.stamp) (record m {
      session = touch session_id clock.now m.session;
      effects = on_terminal session_id text ∷ m.effects;
    })

-- The error of one conn.Read: net.ErrClosed, a timeout, or another.
pub data ReadError : Type 0 where
  conn_closed timeout : ReadError
  other : ReadFailure → ReadError

-- One round: SetReadDeadline fails with a message, or Read gives bytes and perhaps an error.
pub data Round : Type 0 where
  deadline_fails : Text → Round
  reads : List ℕ → Option ReadError → Round

-- The bytes that the filter left, if there are any, go to the terminal.
unfoldable pub show_payload : (List ℕ → Option Text) → Text → Clock → List ℕ → Manager → Manager
unfolding on_terminal_output
show_payload windows1251 session_id clock [] m = m
show_payload windows1251 session_id clock (p ∷ ps) m =
    on_terminal_output session_id (decode windows1251 (p ∷ ps)) clock m

-- The bytes of a round, if there are any.
unfoldable pub take_bytes :
    (List ℕ → Option Text) → Text → Clock → List ℕ → TelnetFilter → Manager → TelnetFilter × Manager
unfolding show_payload
take_bytes windows1251 session_id clock [] f m = (f, m)
take_bytes windows1251 session_id clock (b ∷ bs) f m =
    let (f1, payload) = filter_data f (b ∷ bs) in
    (f1, show_payload windows1251 session_id clock payload m)

-- What the loop does behind a read: go on, return, or report the end of the connection and return.
pub data Next : Type 0 where
  goes_on ends : Next
  reports : ReadFailure → Next

unfoldable pub next_of : Option ReadError → Next
next_of none = goes_on
next_of (some conn_closed) = ends
next_of (some timeout) = goes_on
next_of (some (other err)) = reports err

unfoldable pub after_read : Text → Clock → Next → Manager → Manager → Manager
unfolding handle_upstream_disconnect
after_read session_id clock goes_on rest m = rest
after_read session_id clock ends rest m = m
after_read session_id clock (reports err) rest m = handle_upstream_disconnect session_id err clock m

-- readUpstream, on the outcomes of its rounds; it waits where they run out.
unfoldable pub read_rounds :
    (List ℕ → Option Text) → Text → List (Clock × Round) → TelnetFilter → Manager → Manager
unfolding take_bytes next_of after_read
read_rounds windows1251 session_id [] f m = m
read_rounds windows1251 session_id ((clock, deadline_fails message) ∷ rs) f m =
    handle_upstream_disconnect session_id (failure (codes "set read deadline failed: " ++ message))
      clock m
read_rounds windows1251 session_id ((clock, reads bytes err) ∷ rs) f m =
    let (f1, m1) = take_bytes windows1251 session_id clock bytes f m in
    let rest = read_rounds windows1251 session_id rs f1 m1 in
    after_read session_id clock (next_of err) rest m1

unfoldable pub read_upstream :
    (List ℕ → Option Text) → Text → List (Clock × Round) → Manager → Manager
unfolding read_rounds
read_upstream windows1251 session_id rs m =
    read_rounds windows1251 session_id rs (record { state = state_data }) m
