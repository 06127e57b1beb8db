-- ===== src/Gateway/Manager.antt =====
-- backend/internal/gateway/manager.go: the one session, its connection and its queue, and the events
-- about them. Calls outside the package are arguments: the outcome of a dial, a write or a read, the
-- encoder of golang.org/x/text, and one reading of the clock for each call.
pub mod Disconnect
pub mod Commands
pub mod Upstream
pub mod Invariant
pub mod Keeps
pub mod Sends
pub mod History
pub mod Races
pub mod Sessions
pub mod Worker
pub mod Rounds
pub mod Texts
pub mod Drain
pub mod Delivered
use arda_wed_gateway.Base.{
  ℕ, suc, ◌+◌, Bool, true, false, not, ◌&&◌, ◌||◌, Option, none, some, List, [], ◌∷◌, ◌++◌,
  if◌then◌else◌,
}
use arda_wed_gateway.Base.Text.{Text, codes, decimal, text_eq}
use arda_wed_gateway.Base.Text.Utf8.{to_bytes}
use arda_wed_gateway.Base.Word.{ℤ, pos, add64}
use arda_wed_gateway.Gateway.Event.{TerminalEvent}
use arda_wed_gateway.Gateway.Hub.{Hub, new_hub}
use arda_wed_gateway.Gateway.Hub
use arda_wed_gateway.Gateway.Metrics.{Metrics, inc_events_broadcast}
use arda_wed_gateway.Gateway.Queue.{
  CommandQueue, new_command_queue, Enqueued, accepted, rejected, depth, start, stop_and_drop,
}
use arda_wed_gateway.Gateway.Queue

pub data GatewayError : Type 0 where
  session_already_connected session_not_connected upstream_unavailable queue_full : GatewayError
  deadline_error write_error : GatewayError

-- The time of a call, and the same time as text.
pub record Clock : Type 0 where
  pub now : ℕ
  pub stamp : Text

-- A time of 0 is Go's zero time.
pub record Status : Type 0 where
  pub session_id : Text
  pub connected : Bool
  pub queue_depth : ℕ
  pub queue_max : ℕ
  pub last_activity : ℕ

-- `conn` names a connection.
pub record Session : Type 0 where
  pub id : Text
  pub host : Text
  pub port : ℤ
  pub connected : Bool
  pub last_activity : ℕ
  pub conn : Option ℕ
  pub queue : CommandQueue

-- What the manager did to connections, the latest first: closed one, or wrote bytes to one; and the
-- calls of `onTerminal`.
pub data Effect : Type 0 where
  closes : ℕ → Effect
  writes : ℕ → List ℕ → Effect
  on_terminal : Text → Text → Effect

pub record Manager : Type 0 where
  pub queue_max_depth : ℕ
  pub session : Option Session
  pub session_seq : ℕ
  pub metrics : Metrics
  pub hub : Hub
  pub effects : List Effect

unfoldable pub new_manager : ℕ → Metrics → Manager
new_manager queue_max_depth metrics = record {
  queue_max_depth = queue_max_depth;
  session = none;
  session_seq = 0;
  metrics = metrics;
  hub = new_hub;
  effects = [];
}

unfoldable pub broadcast : TerminalEvent → Manager → Manager
unfolding inc_events_broadcast
broadcast e m =
    let (metrics, hub) = Hub.broadcast e (inc_events_broadcast m.metrics) m.hub in
    record m { metrics = metrics; hub = hub }

abbrev pub zero_status : Status
zero_status = record {
  session_id = [];
  connected = false;
  queue_depth = 0;
  queue_max = 0;
  last_activity = 0;
}

-- statusLocked of the session that there is.
unfoldable pub status_of : Session → Status
unfolding depth
status_of s = record {
  session_id = s.id;
  connected = s.connected;
  queue_depth = depth s.queue;
  queue_max = s.queue.max_depth;
  last_activity = s.last_activity;
}

abbrev pub session_name : ℕ → Text
session_name seq = codes "s-" ++ decimal (pos seq)

unfoldable pub new_session : ℕ → ℕ → ℕ → Session
new_session seq max_depth now = record {
  id = session_name seq;
  host = [];
  port = pos 0;
  connected = false;
  last_activity = now;
  conn = none;
  queue = new_command_queue (session_name seq) max_depth;
}

unfoldable pub ensure_from : Option Session → ℕ → Manager → Session × Manager
unfolding new_session new_command_queue
ensure_from (some s) now m = (s, m)
ensure_from none now m =
    let s = new_session (add64 m.session_seq 1) m.queue_max_depth now in
    (s, record m { session = some s; session_seq = add64 m.session_seq 1 })

-- ensureSessionLocked
unfoldable pub ensure_session : ℕ → Manager → Session × Manager
unfolding ensure_from
ensure_session now m = ensure_from m.session now m

-- Status
unfoldable pub status : Clock → Manager → Manager × Status
unfolding ensure_session status_of
status clock m = let (s, m1) = ensure_session clock.now m in (m1, status_of s)

-- The part of Connect under the lock: `none` if the session was connected already, and then the
-- connection is closed again.
unfoldable pub connect_locked :
    ℕ → Text → ℤ → Clock → Manager → Manager × (Status × Option GatewayError)
unfolding ensure_session status_of start
connect_locked conn host port clock m =
    let (s, m1) = ensure_session clock.now m in
    if s.connected
    then (
      record m1 { effects = closes conn ∷ m1.effects },
      (status_of s, some session_already_connected),
    )
    else (let s1 : Session = record s {
      host = host;
      port = port;
      conn = some conn;
      connected = true;
      last_activity = clock.now;
      queue = (start s.queue).0;
    } in
        (record m1 { session = some s1 }, (status_of s1, none)))

unfoldable pub connected_event : Text → ℤ → Status → Text → TerminalEvent
connected_event host port st stamp = record {
  event = codes "session.connected";
  session_id = st.session_id;
  connected = true;
  text = codes "connected to " ++ (host ++ (codes ":" ++ decimal port));
  queue_depth = st.queue_depth;
  queue_max = st.queue_max;
  queue_reject_code = [];
  timestamp = stamp;
}

unfoldable pub announce :
    TerminalEvent
    → Manager × (Status × Option GatewayError)
    → Manager × (Status × Option GatewayError)
announce e (m, (st, none)) = (broadcast e m, (st, none))
announce e (m, (st, some err)) = (m, (st, some err))

-- Connect; `dialed` is the connection that the dial returned, if it succeeded.
unfoldable pub connect :
    Option ℕ → Text → ℤ → Clock → Manager → Manager × (Status × Option GatewayError)
unfolding connect_locked connected_event announce
connect none host port clock m = (m, (zero_status, some upstream_unavailable))
connect (some conn) host port clock m =
    let r = connect_locked conn host port clock m in
    announce (connected_event host port r.1.0 clock.stamp) r
