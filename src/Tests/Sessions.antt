-- ===== src/Tests/Sessions.antt =====
-- manager.go at a concrete session.
use arda_wed_gateway.Base.{
  ℕ, ◌≤◌, ◌≡◌, refl, true, false, none, some, List, [], ◌∷◌, ◌++◌, length, arith,
}
use arda_wed_gateway.Base.Text.{Text, codes}
use arda_wed_gateway.Base.Word.{pos}
use arda_wed_gateway.Gateway.Metrics.{new_metrics}
use arda_wed_gateway.Gateway.Hub.{new_hub}
use arda_wed_gateway.Gateway.Manager.{
  Clock, Session, session_name, Manager, session_already_connected, new_manager, connect_locked,
  connect, broadcast,
}
use arda_wed_gateway.Gateway.Manager.Disconnect.{
  eof, disconnect_begin, disconnect_rest, manual_disconnect, handle_upstream_disconnect,
}
use arda_wed_gateway.Gateway.Manager.Commands.{written, deadline_fails, encode_command, worker_tick}
use arda_wed_gateway.Gateway.Manager.Invariant.{IsValid}
use arda_wed_gateway.Gateway.Manager.History.{
  Call, call, connects, enqueues, ticks, disconnects, joins, Charset, run, run-IsValid,
}
use arda_wed_gateway.Gateway.Manager.Sessions.{
  is_connected, waiting, reconnect_replays_nothing, stale_reader_disconnects,
}
use arda_wed_gateway.Gateway.Manager.Races.{has_worker, connect_between_halves}
use arda_wed_gateway.Gateway.Manager.Worker.{Sends, worker_tick-Sends}
use arda_wed_gateway.Gateway.Manager.Drain.{AtWork}
use arda_wed_gateway.Gateway.Manager.Delivered
use arda_wed_gateway.Gateway.Manager.Delivered.{Tick, submit, submitted, writes_of, submit-ticks}

abbrev at : ℕ → Clock
at n = record { now = n; stamp = codes "t" }

abbrev host_name : Text
host_name = codes "mud"

-- A code page that leaves every code as it is.
abbrev identity_charset : Charset
identity_charset = record { decoder = λ bytes. some bytes; encoder = λ text. some text }

abbrev calls : List (Clock × Call)
calls =
    (at 1, joins)
    ∷ (at 2, connects (some 7) host_name (pos 4000))
    ∷ (at 3, enqueues (codes "look"))
    ∷ (at 4, ticks written (pos 5))
    ∷ (at 5, disconnects)
    ∷ []

run-IsValid_example : IsValid (run identity_charset calls (new_manager 2 new_metrics))
run-IsValid_example = run-IsValid identity_charset 2 calls

-- The manager of a session on connection 7, with two commands that wait.
abbrev open_session : Session
open_session = record {
  id = session_name 1;
  host = host_name;
  port = pos 4000;
  connected = true;
  last_activity = 2;
  conn = some 7;
  queue = record {
    session_id = session_name 1;
    max_depth = 3;
    commands = codes "look" ∷ codes "north" ∷ [];
    running = true;
  };
}

abbrev busy_manager : Manager
busy_manager = record {
  queue_max_depth = 3;
  session = some open_session;
  session_seq = 1;
  metrics = new_metrics;
  hub = new_hub;
  effects = [];
}

worker_tick-Sends_example :
    Sends written []
      (encode_command identity_charset.encoder (codes "look"))
      7
      (codes "north" ∷ [])
      0
      (worker_tick identity_charset.encoder written (pos 5) (at 4) busy_manager)
worker_tick-Sends_example =
    worker_tick-Sends identity_charset.encoder written (pos 5) (at 4) busy_manager open_session 7
      (codes "look") (codes "north" ∷ []) refl refl refl refl

reconnect_replays_nothing_example :
    let closed = manual_disconnect (at 5) busy_manager in
    let reopened = connect (some 8) host_name (pos 4000) (at 6) closed.0 in
    (closed.1.1 ≡ length (waiting busy_manager.session))
    × (closed.1.2 ≡ none)
    × (is_connected closed.0.session ≡ false)
    × (reopened.1.1 ≡ none)
    × (is_connected reopened.0.session ≡ true)
    × (waiting reopened.0.session ≡ [])
reconnect_replays_nothing_example =
    reconnect_replays_nothing (at 5) (at 6) 8 host_name (pos 4000) busy_manager refl

abbrev later_commands : List (Clock × Text)
later_commands = (at 8, codes "look") ∷ (at 9, codes "north") ∷ []

connect_between_halves_example :
    let begun = disconnect_begin [] true (at 5) busy_manager in
    let connected = connect_locked 8 host_name (pos 4000) (at 6) begun.0 in
    let ended = disconnect_rest (codes "manual disconnect") (at 7) (connected.0, begun.1) in
    let later = submit later_commands ended.0 in
    let again = connect_locked 9 host_name (pos 4000) (at 10) later in
    (connected.1.1 ≡ none)
    × AtWork 8 3 (submitted later_commands) later
    × (later.effects ≡ ended.0.effects)
    × (has_worker later.session ≡ false)
    × (again.1.1 ≡ some session_already_connected)
    × (has_worker again.0.session ≡ false)
connect_between_halves_example =
    connect_between_halves (at 5) (at 6) (at 7) (at 10) 8 9 host_name (codes "manual disconnect")
      (pos 4000) true later_commands busy_manager open_session refl refl (omega arith)

abbrev connected_calls : List (Clock × Call)
connected_calls = (at 2, connects (some 7) host_name (pos 4000)) ∷ []

abbrev connected_manager : Manager
connected_manager = run identity_charset connected_calls (new_manager 2 new_metrics)

connected_manager_connected : is_connected connected_manager.session ≡ true
unfolding run call new_manager connect broadcast
connected_manager_connected = refl

stale_reader_disconnects_example :
    is_connected (handle_upstream_disconnect (session_name 1) eof (at 3) connected_manager).session
    ≡ false
stale_reader_disconnects_example =
    stale_reader_disconnects eof (at 3) connected_manager
      (run-IsValid identity_charset 2 connected_calls) connected_manager_connected

busy-AtWork : AtWork 7 3 (codes "look" ∷ codes "north" ∷ []) busy_manager
busy-AtWork = record {
  session = open_session;
  stored = refl;
  connected = refl;
  over = refl;
  commands = refl;
  limit = refl;
}

abbrev one_more : List (Clock × Text)
one_more = (at 3, codes "south") ∷ []

-- The connection fails at the second of four ticks.
abbrev four_ticks : List Tick
four_ticks =
    (written, pos 5, at 4)
    ∷ (deadline_fails, pos 5, at 5)
    ∷ (written, pos 5, at 6)
    ∷ (written, pos 5, at 7)
    ∷ []

enough_ticks :
    length ((codes "look" ∷ codes "north" ∷ []) ++ submitted one_more) ≤ length four_ticks
unfolding submitted
enough_ticks = omega arith

submit-ticks_example :
    let n = Delivered.ticks identity_charset.encoder four_ticks (submit one_more busy_manager) in
    AtWork 7 3 [] n
    × (n.effects
        ≡ writes_of identity_charset.encoder 7 four_ticks
            ((codes "look" ∷ codes "north" ∷ []) ++ submitted one_more)
            [])
submit-ticks_example =
    submit-ticks identity_charset.encoder 7 3 (codes "look" ∷ codes "north" ∷ []) one_more
      four_ticks busy_manager busy-AtWork (omega arith) enough_ticks
