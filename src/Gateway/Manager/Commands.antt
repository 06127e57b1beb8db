-- ===== src/Gateway/Manager/Commands.antt =====
-- manager.go: Enqueue, the sender of the queue's worker, and the status event.
use arda_wed_gateway.Base.{
  ℕ, false, not, ◌||◌, Option, none, some, List, [], ◌∷◌, ◌++◌, take, if◌then◌else◌,
}
use arda_wed_gateway.Base.Text.{Text, codes, text_eq}
use arda_wed_gateway.Base.Text.Utf8.{to_bytes}
use arda_wed_gateway.Base.Word.{ℤ}
use arda_wed_gateway.Gateway.Event.{TerminalEvent}
use arda_wed_gateway.Gateway.Queue.{
  CommandQueue, Enqueued, accepted, rejected, pop, send_failed, send_succeeded, depth,
}
use arda_wed_gateway.Gateway.Queue
use arda_wed_gateway.Gateway.Manager.{
  GatewayError, session_not_connected, queue_full, deadline_error, write_error, Clock, Status,
  Session, Manager, writes, broadcast, status_of, ensure_session, status,
}

unfoldable pub rejected_event : Status → ℕ → ℕ → Text → TerminalEvent
rejected_event st depth queue_max stamp = record {
  event = codes "queue.rejected";
  session_id = st.session_id;
  connected = false;
  text = codes "command rejected: queue full";
  queue_depth = depth;
  queue_max = queue_max;
  queue_reject_code = codes "QUEUE_FULL";
  timestamp = stamp;
}

unfoldable pub accepted_event : Status → Text → ℕ → Text → TerminalEvent
accepted_event st command depth stamp = record {
  event = codes "queue.accepted";
  session_id = st.session_id;
  connected = false;
  text = command;
  queue_depth = depth;
  queue_max = st.queue_max;
  queue_reject_code = [];
  timestamp = stamp;
}

-- What follows the call of the queue's Enqueue; `s` already holds the queue that it left.
unfoldable pub enqueue_answer :
    Enqueued → Text → Clock → Session → Manager → Manager × (Status × Option GatewayError)
unfolding status_of rejected_event accepted_event
enqueue_answer (rejected depth) command clock s m = (
  broadcast (rejected_event (status_of s) depth s.queue.max_depth clock.stamp)
      (record m { session = some s }),
  (status_of s, some queue_full),
)
enqueue_answer (accepted depth) command clock s m =
    let s1 : Session = record s { last_activity = clock.now } in
    let st : Status = record (status_of s1) { queue_depth = depth } in
    (
      broadcast (accepted_event st command depth clock.stamp) (record m { session = some s1 }),
      (st, none),
    )

-- Enqueue
unfoldable pub enqueue : Text → Clock → Manager → Manager × (Status × Option GatewayError)
unfolding ensure_session enqueue_answer status_of
enqueue command clock m =
    let (s, m1) = ensure_session clock.now m in
    if not s.connected
    then (m1, (status_of s, some session_not_connected))
    else (let (metrics, queue, result) = Queue.enqueue command m1.metrics s.queue in
        enqueue_answer result command clock (record s { queue = queue })
          (record m1 { metrics = metrics }))

-- How the calls on the connection end: SetWriteDeadline may fail, and Write may fail behind the first
-- bytes of the payload.
pub data WriteOutcome : Type 0 where
  deadline_fails written : WriteOutcome
  write_fails : ℕ → WriteOutcome

-- `Windows1251.NewEncoder().Bytes`, `none` where it returns an error.
unfoldable pub encode_command : (Text → Option (List ℕ)) → Text → List ℕ
encode_command encoder command = elim (encoder (command ++ (10 ∷ []))) [
  | none ↦ to_bytes (command ++ (10 ∷ []))
  | some payload ↦ payload
]

unfoldable pub write_to :
    (Text → Option (List ℕ))
    → WriteOutcome
    → Clock
    → Text
    → Option ℕ
    → Session
    → Manager
    → Manager × Option GatewayError
unfolding encode_command
write_to encoder outcome clock command none s m = (m, some session_not_connected)
write_to encoder deadline_fails clock command (some conn) s m = (m, some deadline_error)
write_to encoder (write_fails n) clock command (some conn) s m = (
  record m { effects = writes conn (take n (encode_command encoder command)) ∷ m.effects },
  some write_error,
)
write_to encoder written clock command (some conn) s m = (
  record m {
    session = some (record s { last_activity = clock.now });
    effects = writes conn (encode_command encoder command) ∷ m.effects;
  },
  none,
)

unfoldable pub write_from :
    Option Session
    → (Text → Option (List ℕ))
    → WriteOutcome
    → Clock
    → Text
    → Text
    → Manager
    → Manager × Option GatewayError
unfolding write_to
write_from none encoder outcome clock session_id command m = (m, some session_not_connected)
write_from (some s) encoder outcome clock session_id command m =
    if not (text_eq s.id session_id) || not s.connected
    then (m, some session_not_connected)
    else write_to encoder outcome clock command s.conn s m

-- writeCommand
unfoldable pub write_command :
    (Text → Option (List ℕ))
    → WriteOutcome
    → Clock
    → Text
    → Text
    → Manager
    → Manager × Option GatewayError
unfolding write_from
write_command encoder outcome clock session_id command m =
    write_from m.session encoder outcome clock session_id command m

unfoldable pub send_failed_event : Text → Text → ℕ → ℕ → Text → TerminalEvent
send_failed_event session_id command depth queue_max stamp = record {
  event = codes "queue.send_failed";
  session_id = session_id;
  connected = false;
  text = command;
  queue_depth = depth;
  queue_max = queue_max;
  queue_reject_code = [];
  timestamp = stamp;
}

-- What the worker does with the sender's answer; `s` is the session whose queue it serves.
unfoldable pub worker_answer : Option GatewayError → Text → ℤ → Clock → Session → Manager → Manager
unfolding send_failed_event send_failed send_succeeded depth
worker_answer none command elapsed clock s m = record m {
  metrics = send_succeeded elapsed m.metrics;
}
worker_answer (some err) command elapsed clock s m =
    broadcast (send_failed_event s.id command (depth s.queue) s.queue.max_depth clock.stamp)
      (record m { metrics = send_failed m.metrics })

unfoldable pub worker_send :
    (Text → Option (List ℕ)) → WriteOutcome → ℤ → Clock → Option Text → Session → Manager → Manager
unfolding worker_answer
worker_send encoder outcome elapsed clock none s m = m
worker_send encoder outcome elapsed clock (some command) s m =
    let (m1, err) = write_command encoder outcome clock s.id command m in
    worker_answer err command elapsed clock s m1

unfoldable pub worker_from :
    Option Session → (Text → Option (List ℕ)) → WriteOutcome → ℤ → Clock → Manager → Manager
unfolding worker_send pop
worker_from none encoder outcome elapsed clock m = m
worker_from (some s) encoder outcome elapsed clock m =
    let (metrics, queue, command) = pop m.metrics s.queue in
    let s1 : Session = record s { queue = queue } in
    worker_send encoder outcome elapsed clock command s1
      (record m { session = some s1; metrics = metrics })

-- One tick of the worker of the session's queue: pop, send, count and report.
unfoldable pub worker_tick : (Text → Option (List ℕ)) → WriteOutcome → ℤ → Clock → Manager → Manager
unfolding worker_from write_command
worker_tick encoder outcome elapsed clock m = worker_from m.session encoder outcome elapsed clock m

-- BuildStatusEvent
unfoldable pub build_status_event : Clock → Manager → Manager × TerminalEvent
unfolding status
build_status_event clock m =
    let (m1, st) = status clock m in
    (
      m1,
      record {
        event = codes "session.status";
        session_id = st.session_id;
        connected = st.connected;
        text = [];
        queue_depth = st.queue_depth;
        queue_max = st.queue_max;
        queue_reject_code = [];
        timestamp = clock.stamp;
      },
    )
