-- ===== src/Gateway/Manager/History.antt =====
-- The manager after any history of whole calls.
use arda_wed_gateway.Base.{ℕ, refl, true, false, Option, none, some, List, [], ◌∷◌, ◌++◌, if_cases}
use arda_wed_gateway.Base.Text.{Text, text_eq, codes}
use arda_wed_gateway.Base.Word.{ℤ}
use arda_wed_gateway.Gateway.Hub
use arda_wed_gateway.Gateway.Hub.Registry
use arda_wed_gateway.Gateway.Metrics.{new_metrics}
use arda_wed_gateway.Gateway.Telnet.{TelnetFilter, filter_data, state_data}
use arda_wed_gateway.Gateway.Manager.{Clock, Session, Manager, new_manager, status, connect}
use arda_wed_gateway.Gateway.Manager.Commands.{WriteOutcome, enqueue, worker_tick}
use arda_wed_gateway.Gateway.Manager.Disconnect.{
  manual_disconnect, handle_upstream_disconnect, ReadFailure, failure, disconnect_reason,
}
use arda_wed_gateway.Gateway.Manager.Invariant.{SessionOk, IsValid, broadcast-IsValid}
use arda_wed_gateway.Gateway.Manager.Keeps.{connect-IsValid, disconnect-IsValid, status-IsValid}
use arda_wed_gateway.Gateway.Manager.Sends.{enqueue-IsValid, worker_tick-IsValid, touched_session}
use arda_wed_gateway.Gateway.Manager.Upstream.{
  Round, deadline_fails, reads, on_terminal_output, touch, show_payload, take_bytes, after_read,
  Next, goes_on, ends, reports, next_of, read_rounds, read_upstream,
}

touch-SessionOk :
    (max seq now : ℕ) (id : Text) (o : Option Session)
    → SessionOk max seq o
    → SessionOk max seq (touch id now o)
unfolding touch
touch-SessionOk max seq now id none ok = ok
touch-SessionOk max seq now id (some s) ok =
    if_cases (SessionOk max seq) (text_eq s.id id) (λ e. (ok.0, touched_session max now s ok.1))
      (λ e. ok)

output-IsValid :
    (id text : Text) (clock : Clock) (m : Manager)
    → IsValid m
    → IsValid (on_terminal_output id text clock m)
unfolding on_terminal_output
output-IsValid id text clock m v = broadcast-IsValid _ _ (record {
  session_ok = touch-SessionOk m.queue_max_depth m.session_seq clock.now id m.session v.session_ok;
  hub_ok = v.hub_ok;
})

pub handle-IsValid :
    (id : Text) (err : ReadFailure) (clock : Clock) (m : Manager)
    → IsValid m
    → IsValid (handle_upstream_disconnect id err clock m)
unfolding handle_upstream_disconnect
handle-IsValid id err clock m v = disconnect-IsValid id (disconnect_reason err) false clock m v

module _ (windows1251 : List ℕ → Option Text) (id : Text) where
  show_payload-IsValid :
      (clock : Clock) (payload : List ℕ) (m : Manager)
      → IsValid m
      → IsValid (show_payload windows1251 id clock payload m)
  unfolding show_payload
  show_payload-IsValid clock [] m v = v
  show_payload-IsValid clock (p ∷ ps) m v = output-IsValid id _ clock m v

  pub take_bytes-IsValid :
      (clock : Clock) (bytes : List ℕ) (f : TelnetFilter) (m : Manager)
      → IsValid m
      → IsValid (take_bytes windows1251 id clock bytes f m).1
  unfolding take_bytes
  take_bytes-IsValid clock [] f m v = v
  take_bytes-IsValid clock (b ∷ bs) f m v =
      show_payload-IsValid clock (filter_data f (b ∷ bs)).1 m v

  after_read-IsValid :
      (clock : Clock) (n : Next) (rest m : Manager)
      → IsValid rest
      → IsValid m
      → IsValid (after_read id clock n rest m)
  unfolding after_read
  after_read-IsValid clock goes_on rest m r v = r
  after_read-IsValid clock ends rest m r v = v
  after_read-IsValid clock (reports err) rest m r v = handle-IsValid id err clock m v

  read_rounds-IsValid :
      (rs : List (Clock × Round)) (f : TelnetFilter) (m : Manager)
      → IsValid m
      → IsValid (read_rounds windows1251 id rs f m)
  unfolding read_rounds
  read_rounds-IsValid [] f m v = v
  read_rounds-IsValid ((clock, deadline_fails message) ∷ rs) f m v =
      handle-IsValid id (failure (codes "set read deadline failed: " ++ message)) clock m v
  read_rounds-IsValid ((clock, reads bytes err) ∷ rs) f m v =
      let w = take_bytes-IsValid clock bytes f m v in
      after_read-IsValid clock (next_of err) _ _ (read_rounds-IsValid rs _ _ w) w

-- A web client joins the hub, or leaves it.
join_hub : Manager → Manager
join_hub m =
    let (metrics, hub, id) = Hub.add m.metrics m.hub in record m { metrics = metrics; hub = hub }

leave_hub : ℕ → Manager → Manager
leave_hub id m =
    let (metrics, hub) = Hub.remove id m.metrics m.hub in record m { metrics = metrics; hub = hub }

-- The calls of the manager, by clients, by the queue's worker and by the reader of a connection, and
-- those of its hub.
pub data Call : Type 0 where
  gets_status : Call
  connects : Option ℕ → Text → ℤ → Call
  disconnects : Call
  enqueues : Text → Call
  ticks : WriteOutcome → ℤ → Call
  reads_from : Text → List (Clock × Round) → Call
  joins : Call
  leaves : ℕ → Call

-- The decoder and the encoder of golang.org/x/text.
pub record Charset : Type 0 where
  pub decoder : List ℕ → Option Text
  pub encoder : Text → Option (List ℕ)

unfoldable pub call : Charset → Clock → Call → Manager → Manager
unfolding manual_disconnect join_hub leave_hub
call cs clock gets_status m = (status clock m).0
call cs clock (connects dialed host port) m = (connect dialed host port clock m).0
call cs clock disconnects m = (manual_disconnect clock m).0
call cs clock (enqueues c) m = (enqueue c clock m).0
call cs clock (ticks outcome elapsed) m = worker_tick cs.encoder outcome elapsed clock m
call cs clock (reads_from id rounds) m = read_upstream cs.decoder id rounds m
call cs clock joins m = join_hub m
call cs clock (leaves id) m = leave_hub id m

unfoldable pub run : Charset → List (Clock × Call) → Manager → Manager
run cs [] m = m
run cs ((clock, c) ∷ l) m = run cs l (call cs clock c m)

join_hub-IsValid : (m : Manager) → IsValid m → IsValid (join_hub m)
unfolding join_hub
join_hub-IsValid m v = record {
  session_ok = v.session_ok;
  hub_ok = Registry.add-IsValid m.metrics m.hub v.hub_ok;
}

leave_hub-IsValid : (id : ℕ) (m : Manager) → IsValid m → IsValid (leave_hub id m)
unfolding leave_hub
leave_hub-IsValid id m v = record {
  session_ok = v.session_ok;
  hub_ok = Registry.remove-IsValid id m.metrics m.hub v.hub_ok;
}

pub call-IsValid :
    (cs : Charset) (clock : Clock) (c : Call) (m : Manager)
    → IsValid m
    → IsValid (call cs clock c m)
unfolding call read_upstream
call-IsValid cs clock gets_status m v = status-IsValid clock m v
call-IsValid cs clock (connects dialed host port) m v = connect-IsValid dialed host port clock m v
call-IsValid cs clock disconnects m v =
    disconnect-IsValid [] (codes "manual disconnect") true clock m v
call-IsValid cs clock (enqueues c) m v = enqueue-IsValid c clock m v
call-IsValid cs clock (ticks outcome elapsed) m v =
    worker_tick-IsValid cs.encoder outcome elapsed clock m v
call-IsValid cs clock (reads_from id rounds) m v =
    read_rounds-IsValid cs.decoder id rounds (record { state = state_data }) m v
call-IsValid cs clock joins m v = join_hub-IsValid m v
call-IsValid cs clock (leaves id) m v = leave_hub-IsValid id m v

pub run_keeps :
    (cs : Charset) (l : List (Clock × Call)) (m : Manager) → IsValid m → IsValid (run cs l m)
unfolding run
run_keeps cs [] m v = v
run_keeps cs ((clock, c) ∷ l) m v = run_keeps cs l _ (call-IsValid cs clock c m v)

pub start-IsValid : (max : ℕ) → IsValid (new_manager max new_metrics)
unfolding new_manager
start-IsValid max = record { session_ok = refl; hub_ok = Registry.new_hub-IsValid }

-- After any history of calls, each run to its end before the next, and whatever dials, writes and
-- reads did: a connected session has a connection and a queue with a worker, a session that is not
-- connected has neither and no command waits, the queue is within its limit, the session is the first
-- one, and the hub is in order, so that no broadcast panics.
pub run-IsValid :
    (cs : Charset) (max : ℕ) (l : List (Clock × Call))
    → IsValid (run cs l (new_manager max new_metrics))
run-IsValid cs max l = run_keeps cs l _ (start-IsValid max)
