-- ===== src/Http/Answers.antt =====
-- Which status the calls on the session answer with, and what an accepted command leaves.
use arda_wed_gateway.Base.{
  ℕ, ◌≡◌, refl, Bool, false, not, ◌||◌, Option, none, some, List, [], ◌∷◌, ◌++◌, leb, length,
  if◌then◌else◌, arith,
}
use arda_wed_gateway.Base.Text.{Text}
use arda_wed_gateway.Base.Text.Space.{is_blank}
use arda_wed_gateway.Base.Word.{ℤ}
use arda_wed_gateway.Gateway.Queue
use arda_wed_gateway.Gateway.Manager.{
  session_already_connected, session_not_connected, queue_full, Clock, Session, Manager,
  ensure_session, ensure_from, new_session, broadcast, connect, connect_locked, announce,
}
use arda_wed_gateway.Gateway.Manager.Commands.{enqueue, enqueue_answer}
use arda_wed_gateway.Gateway.Manager.Disconnect.{
  manual_disconnect, disconnect, disconnect_begin, disconnect_rest, disconnect_finish,
}
use arda_wed_gateway.Gateway.Manager.Sessions.{is_connected, waiting}
use arda_wed_gateway.Http.Response.{write_error, write_success}
use arda_wed_gateway.Http.Session.{
  SessionConnectRequest, not_positive, connect_reply, disconnect_reply, enqueue_reply,
  invalid_request, handle_session_connect, handle_session_disconnect, handle_enqueue_command,
}

-- What each call answers on the state that it meets.
abbrev pub connect_code : Option SessionConnectRequest → Option ℕ → Option Session → ℕ
connect_code none dialed o = 400
connect_code (some req) none o = if is_blank req.host || not_positive req.port then 400 else 502
connect_code (some req) (some conn) o =
    if is_blank req.host || not_positive req.port
    then 400
    else (if is_connected o then 409 else 200)

abbrev pub disconnect_code : Option Session → ℕ
disconnect_code o = if is_connected o then 200 else 409

-- Whether the session's queue holds its maximum.
abbrev pub is_full : Option Session → Bool
is_full none = false
is_full (some s) = leb s.queue.max_depth (length s.queue.commands)

abbrev pub enqueue_code : Option Text → Option Session → ℕ
enqueue_code none o = 400
enqueue_code (some command) o =
    if not (is_connected o) then 409 else (if is_full o then 429 else 200)

-- The commands that wait once a request is answered.
abbrev pub waiting_after : Option Text → Option Session → List Text
waiting_after none o = waiting o
waiting_after (some command) o =
    if not (is_connected o) || is_full o then waiting o else waiting o ++ (command ∷ [])

connect_known_error :
    (conn : ℕ) (host : Text) (port : ℤ) (clock : Clock) (m : Manager)
    → (connect (some conn) host port clock m).1.1
      ≡ (if is_connected m.session then some session_already_connected else none)
unfolding connect connect_locked announce ensure_session ensure_from new_session
connect_known_error conn host port clock m = ground arith

disconnect_known_error :
    (clock : Clock) (m : Manager)
    → (manual_disconnect clock m).1.2
      ≡ (if is_connected m.session then none else some session_not_connected)
unfolding manual_disconnect disconnect disconnect_begin disconnect_rest disconnect_finish
    ensure_session ensure_from new_session
disconnect_known_error clock m = ground arith

enqueue_known :
    (command : Text) (clock : Clock) (m : Manager)
    → ((enqueue command clock m).1.1 ≡ (
        if not (is_connected m.session)
        then some session_not_connected
        else (if is_full m.session then some queue_full else none)))
      × (waiting (enqueue command clock m).0.session ≡ waiting_after (some command) m.session)
unfolding enqueue enqueue_answer Queue.enqueue ensure_session ensure_from new_session broadcast
enqueue_known command clock m = ground arith

connect-code :
    (f : ℕ → Text) (id : Text) (body : Option SessionConnectRequest) (dialed : Option ℕ)
    (clock : Clock) (m : Manager)
    → (handle_session_connect f id body dialed clock m).1.status
      ≡ connect_code body dialed m.session
unfolding handle_session_connect connect_reply write_error write_success invalid_request connect
connect-code f id none dialed clock m = refl
connect-code f id (some req) none clock m = ground arith
connect-code f id (some req) (some conn) clock m =
    ground (arith, connect_known_error conn req.host req.port clock m)

-- For every manager and every outcome of the dial: a connect is answered with 400 if its body is not
-- JSON, its host is blank or its port is not positive, else with 502 if the dial failed, else with 409
-- if the session is connected, else with 200; a disconnect with 200 if the session is connected and
-- else with 409; a command with 400 if its body is not JSON, else with 409 if the session is not
-- connected, else with 429 if the queue is full, else with 200. Never 500. The command waits behind
-- the others if the answer is 200, and else the waiting commands stay as they are.
pub answers :
    (f : ℕ → Text) (id : Text) (body : Option SessionConnectRequest) (dialed : Option ℕ)
    (command : Option Text) (clock : Clock) (m : Manager)
    → ((handle_session_connect f id body dialed clock m).1.status
        ≡ connect_code body dialed m.session)
      × ((handle_session_disconnect f id clock m).1.status ≡ disconnect_code m.session)
      × ((handle_enqueue_command id command clock m).1.status ≡ enqueue_code command m.session)
      × (waiting (handle_enqueue_command id command clock m).0.session
          ≡ waiting_after command m.session)
unfolding handle_session_disconnect disconnect_reply handle_enqueue_command enqueue_reply
    write_error write_success invalid_request
answers f id body dialed none clock m = (
  connect-code f id body dialed clock m,
  ground (arith, disconnect_known_error clock m),
  refl,
  refl,
)
answers f id body dialed (some c) clock m = (
  connect-code f id body dialed clock m,
  ground (arith, disconnect_known_error clock m),
  ground (arith, enqueue_known c clock m),
  ground (arith, enqueue_known c clock m),
)
