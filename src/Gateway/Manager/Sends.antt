-- ===== src/Gateway/Manager/Sends.antt =====
-- The calls that put commands into the queue and take them out keep the manager's invariant.
use arda_wed_gateway.Base.{
  ℕ, ◌≡◌, ◌≤◌, refl, ◌∙◌, true, not, ◌||◌, Option, none, some, List, [], ◌∷◌, arith, length,
  length-append, if_cases, Bool-cases, inl, inr,
}
use arda_wed_gateway.Base.Text.{Text, text_eq}
use arda_wed_gateway.Base.Word.{ℤ, pos, negsuc}
use arda_wed_gateway.Gateway.Hub.Registry
use arda_wed_gateway.Gateway.Metrics.{Metrics, observe_queue_send_latency}
use arda_wed_gateway.Gateway.Queue.{
  CommandQueue, Enqueued, start, stop_and_drop, pop, accepted, rejected, send_succeeded,
}
use arda_wed_gateway.Gateway.Queue
use arda_wed_gateway.Gateway.Manager.{GatewayError, Clock, Session, Status, Manager, ensure_session}
use arda_wed_gateway.Gateway.Manager.Commands.{
  WriteOutcome, deadline_fails, write_fails, written, enqueue, enqueue_answer, write_command,
  write_from, write_to, worker_answer, worker_from, worker_send, worker_tick,
}
use arda_wed_gateway.Gateway.Manager.Invariant.{
  IsSession, SessionOk, IsValid, ensure-Ensured, with_session, hub_counter, broadcast-IsValid,
}

-- Enqueue on the queue of a connected session.
enqueued_session :
    (max : ℕ) (c : Text) (mt : Metrics) (s : Session)
    → IsSession max s
    → s.connected ≡ true
    → IsSession max (record s { queue = (Queue.enqueue c mt s.queue).1 })
unfolding Queue.enqueue
enqueued_session max c mt s v e = ground (arith, v.quiet, length-append s.queue.commands (c ∷ []))

enqueue-counter :
    (c : Text) (m : Metrics) (q : CommandQueue)
    → (Queue.enqueue c m q).0.ws_connections ≡ m.ws_connections
unfolding Queue.enqueue
enqueue-counter c m q = ground arith

pub touched_session :
    (max now : ℕ) (s : Session) → IsSession max s → IsSession max (record s { last_activity = now })
touched_session max now s v = record {
  named = v.named;
  queue_named = v.queue_named;
  limit = v.limit;
  bounded = v.bounded;
  linked = v.linked;
  held = v.held;
  quiet = v.quiet;
}

answer-IsValid :
    (r : Enqueued) (c : Text) (clock : Clock) (s : Session) (m : Manager)
    → m.session_seq ≡ 1
    → IsSession m.queue_max_depth s
    → Registry.IsValid m.metrics m.hub
    → IsValid (enqueue_answer r c clock s m).0
unfolding enqueue_answer
answer-IsValid (rejected n) c clock s m q v h =
    broadcast-IsValid _ _ (record { session_ok = (q, v); hub_ok = h })
answer-IsValid (accepted n) c clock s m q v h =
    broadcast-IsValid _ _
      (record { session_ok = (q, touched_session m.queue_max_depth clock.now s v); hub_ok = h })

pub enqueue-IsValid :
    (c : Text) (clock : Clock) (m : Manager) → IsValid m → IsValid (enqueue c clock m).0
unfolding enqueue
enqueue-IsValid c clock m v =
    let d = ensure-Ensured clock.now m v in
    let s = (ensure_session clock.now m).0 in
    let m1 = (ensure_session clock.now m).1 in
    if_cases (λ (r : Manager × (Status × Option GatewayError)). IsValid r.0) (not s.connected)
      (λ e. d.valid)
      (λ e.
        answer-IsValid (Queue.enqueue c m1.metrics s.queue).2 c clock _ _ d.seq
          (enqueued_session m1.queue_max_depth c m1.metrics s d.session (ground arith))
          (hub_counter m1.metrics (Queue.enqueue c m1.metrics s.queue).0 m1.hub
            (enqueue-counter c m1.metrics s.queue) d.valid.hub_ok))

-- What `pop` leaves alone, and that it never makes the queue longer.
record Popped (m : Metrics) (q : CommandQueue) (m' : Metrics) (q' : CommandQueue) : Type 0 where
  name : q'.session_id ≡ q.session_id
  limit : q'.max_depth ≡ q.max_depth
  running : q'.running ≡ q.running
  shorter : length q'.commands ≤ length q.commands
  empty : q.commands ≡ [] → q'.commands ≡ []
  counter : m'.ws_connections ≡ m.ws_connections

pop-Popped :
    (m : Metrics) (q : CommandQueue) (cs : List Text)
    → q.commands ≡ cs
    → Popped m q (pop m q).0 (pop m q).1
unfolding pop
pop-Popped m q [] e = ground (arith, e)
pop-Popped m q (c ∷ cs) e = ground (arith, e)

popped_session :
    (max : ℕ) (m m' : Metrics) (s : Session) (q : CommandQueue)
    → IsSession max s
    → Popped m s.queue m' q
    → IsSession max (record s { queue = q })
popped_session max m m' s q v p = record {
  named = v.named;
  queue_named = p.name ∙ v.queue_named;
  limit = p.limit ∙ v.limit;
  bounded = omega (arith, p.shorter, v.bounded);
  linked = p.running ∙ v.linked;
  held = v.held;
  quiet = λ e. p.empty (v.quiet e);
}

write_to-IsValid :
    (encoder : Text → Option (List ℕ)) (outcome : WriteOutcome) (clock : Clock) (c : Text)
    (conn : Option ℕ) (s : Session) (m : Manager)
    → SessionOk m.queue_max_depth m.session_seq (some s)
    → IsValid m
    → IsValid (write_to encoder outcome clock c conn s m).0
unfolding write_to
write_to-IsValid encoder outcome clock c none s m ok v = v
write_to-IsValid encoder deadline_fails clock c (some conn) s m ok v = v
write_to-IsValid encoder (write_fails n) clock c (some conn) s m ok v = record {
  session_ok = v.session_ok;
  hub_ok = v.hub_ok;
}
write_to-IsValid encoder written clock c (some conn) s m ok v = record {
  session_ok = (ok.0, touched_session m.queue_max_depth clock.now s ok.1);
  hub_ok = v.hub_ok;
}

write_from-IsValid :
    (o : Option Session) (encoder : Text → Option (List ℕ)) (outcome : WriteOutcome) (clock : Clock)
    (id c : Text) (m : Manager)
    → SessionOk m.queue_max_depth m.session_seq o
    → IsValid m
    → IsValid (write_from o encoder outcome clock id c m).0
unfolding write_from
write_from-IsValid none encoder outcome clock id c m ok v = v
write_from-IsValid (some s) encoder outcome clock id c m ok v =
    elim (Bool-cases (not (text_eq s.id id) || not s.connected)) [
      | inl e ↦ rw e v
      | inr e ↦ rw e (write_to-IsValid encoder outcome clock c s.conn s m ok v)
    ]

pub write_command-IsValid :
    (encoder : Text → Option (List ℕ)) (outcome : WriteOutcome) (clock : Clock) (id c : Text)
    (m : Manager)
    → IsValid m
    → IsValid (write_command encoder outcome clock id c m).0
unfolding write_command
write_command-IsValid encoder outcome clock id c m v =
    write_from-IsValid m.session encoder outcome clock id c m v.session_ok v

send_succeeded-counter :
    (d : ℤ) (m : Metrics) → (send_succeeded d m).ws_connections ≡ m.ws_connections
unfolding send_succeeded observe_queue_send_latency
send_succeeded-counter (negsuc d) m = refl
send_succeeded-counter (pos d) m = ground arith

worker_answer-IsValid :
    (err : Option GatewayError) (c : Text) (elapsed : ℤ) (clock : Clock) (s : Session) (m : Manager)
    → IsValid m
    → IsValid (worker_answer err c elapsed clock s m)
unfolding worker_answer
worker_answer-IsValid none c elapsed clock s m v = record {
  session_ok = v.session_ok;
  hub_ok = hub_counter m.metrics _ m.hub (send_succeeded-counter elapsed m.metrics) v.hub_ok;
}
worker_answer-IsValid (some err) c elapsed clock s m v =
    broadcast-IsValid _ _
      (record { session_ok = v.session_ok; hub_ok = hub_counter m.metrics _ m.hub refl v.hub_ok })

worker_send-IsValid :
    (encoder : Text → Option (List ℕ)) (outcome : WriteOutcome) (elapsed : ℤ) (clock : Clock)
    (c : Option Text) (s : Session) (m : Manager)
    → IsValid m
    → IsValid (worker_send encoder outcome elapsed clock c s m)
unfolding worker_send
worker_send-IsValid encoder outcome elapsed clock none s m v = v
worker_send-IsValid encoder outcome elapsed clock (some c) s m v =
    worker_answer-IsValid _ c elapsed clock s _
      (write_command-IsValid encoder outcome clock s.id c m v)

worker_from-IsValid :
    (o : Option Session) (encoder : Text → Option (List ℕ)) (outcome : WriteOutcome) (elapsed : ℤ)
    (clock : Clock) (m : Manager)
    → SessionOk m.queue_max_depth m.session_seq o
    → IsValid m
    → IsValid (worker_from o encoder outcome elapsed clock m)
unfolding worker_from
worker_from-IsValid none encoder outcome elapsed clock m ok v = v
worker_from-IsValid (some s) encoder outcome elapsed clock m ok v =
    let p = pop-Popped m.metrics s.queue s.queue.commands refl in
    worker_send-IsValid encoder outcome elapsed clock _ _ _ (
      with_session _ m _ refl ok.0 (popped_session m.queue_max_depth m.metrics _ s _ ok.1 p) refl
        p.counter v.hub_ok)

pub worker_tick-IsValid :
    (encoder : Text → Option (List ℕ)) (outcome : WriteOutcome) (elapsed : ℤ) (clock : Clock)
    (m : Manager)
    → IsValid m
    → IsValid (worker_tick encoder outcome elapsed clock m)
unfolding worker_tick
worker_tick-IsValid encoder outcome elapsed clock m v =
    worker_from-IsValid m.session encoder outcome elapsed clock m v.session_ok v
