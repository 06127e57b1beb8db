-- ===== src/Gateway/Queue.antt =====
-- backend/internal/gateway/queue.go: the bounded queue of commands that one worker sends at intervals.
pub mod System
pub mod Calls
use arda_wed_gateway.Base.{
  ℕ, ◌<◌, Bool, true, false, Option, none, some, List, [], ◌∷◌, ◌++◌, ltb, leb, length,
  if◌then◌else◌,
}
use arda_wed_gateway.Base.Text.{Text}
use arda_wed_gateway.Base.Word.{ℤ}
use arda_wed_gateway.Gateway.Metrics.{
  Metrics, set_queue_depth, inc_queue_sent, inc_queue_send_failed, inc_queue_rejected,
  add_queue_dropped, add_queue_dropped_for_session, observe_queue_send_latency,
}

-- The channels stopCh and doneCh belong to the worker; `running` says whether there is one to stop.
pub record CommandQueue : Type 0 where
  pub commands : List Text
  pub session_id : Text
  pub max_depth : ℕ
  pub running : Bool

unfoldable pub new_command_queue : Text → ℕ → CommandQueue
new_command_queue session_id max_depth = record {
  commands = [];
  session_id = session_id;
  max_depth = max_depth;
  running = false;
}

-- What Enqueue returns: the depth, with no error or with ErrQueueFull.
pub data Enqueued : Type 0 where
  accepted rejected : ℕ → Enqueued

unfoldable pub enqueue : Text → Metrics → CommandQueue → Metrics × CommandQueue × Enqueued
unfolding set_queue_depth inc_queue_rejected
enqueue command m q =
    if leb q.max_depth (length q.commands)
    then (inc_queue_rejected m, q, rejected (length q.commands))
    else (
      set_queue_depth (length (q.commands ++ (command ∷ []))) m,
      record q { commands = q.commands ++ (command ∷ []) },
      accepted (length (q.commands ++ (command ∷ []))),
    )

unfoldable pub depth : CommandQueue → ℕ
depth q = length q.commands

-- The second part says whether the call starts a worker.
unfoldable pub start : CommandQueue → CommandQueue × Bool
start q = if q.running then (q, false) else (record q { running = true }, true)

unfoldable pub pop_from : List Text → Metrics → CommandQueue → Metrics × CommandQueue × Option Text
unfolding set_queue_depth
pop_from [] m q = (m, q, none)
pop_from (c ∷ rest) m q = (set_queue_depth (length rest) m, record q { commands = rest }, some c)

unfoldable pub pop : Metrics → CommandQueue → Metrics × CommandQueue × Option Text
unfolding pop_from
pop m q = pop_from q.commands m q

-- The locked part of StopAndDrop: how many commands it drops, and whether it has a worker to stop.
unfoldable pub stop_begin : Metrics → CommandQueue → Metrics × CommandQueue × (ℕ × Bool)
unfolding set_queue_depth
stop_begin m q = (
  set_queue_depth 0 m,
  record q { commands = []; running = false },
  (length q.commands, q.running),
)

-- Behind `<-doneCh`.
unfoldable pub stop_finish : Text → ℕ → Metrics → Metrics
unfolding add_queue_dropped add_queue_dropped_for_session
stop_finish session_id dropped m =
    if ltb 0 dropped
    then add_queue_dropped_for_session session_id dropped (add_queue_dropped dropped m)
    else m

-- The whole call, where nothing else happens while it waits for the worker.
unfoldable pub stop_and_drop : Metrics → CommandQueue → Metrics × CommandQueue × ℕ
unfolding stop_begin stop_finish
stop_and_drop m q =
    let (m', q', (dropped, was_running)) = stop_begin m q in
    (if was_running then stop_finish q.session_id dropped m' else m', q', dropped)

-- What the worker counts when the sender returns an error, and when it returns after `elapsed`.
unfoldable pub send_failed : Metrics → Metrics
unfolding inc_queue_send_failed
send_failed m = inc_queue_send_failed m

unfoldable pub send_succeeded : ℤ → Metrics → Metrics
unfolding inc_queue_sent
send_succeeded elapsed m = observe_queue_send_latency elapsed (inc_queue_sent m)
