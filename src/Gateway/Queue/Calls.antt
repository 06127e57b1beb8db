-- ===== src/Gateway/Queue/Calls.antt =====
-- What one call on the queue does, alone.
use arda_wed_gateway.Base.{
  ℕ, zero, suc, ap, sym, ◌∙◌, append-nil, append_assoc, ltb, not, ◌&&◌, ◌+◌, ◌-◌, ◌%◌, ◌≡◌, ◌≤◌,
  refl, false, List, [], ◌∷◌, ◌++◌, arith, if◌then◌else◌, length, length-append, take,
}
use arda_wed_gateway.Base.Map.{lookup}
use arda_wed_gateway.Base.Map.Laws.{lookup-insert}
use arda_wed_gateway.Base.Text.{Text, text_eq, text_eq_refl}
use arda_wed_gateway.Base.Word.{word64}
use arda_wed_gateway.Gateway.Metrics.{Metrics, counter, set_queue_depth, inc_queue_rejected}
use arda_wed_gateway.Gateway.Queue.{CommandQueue, enqueue, stop_and_drop}

pub enqueue_all : List Text → Metrics → CommandQueue → Metrics × CommandQueue
enqueue_all [] m q = (m, q)
enqueue_all (c ∷ cs) m q = enqueue_all cs (enqueue c m q).0 (enqueue c m q).1

enqueue_burst-full :
    (cs : List Text) (m : Metrics) (q : CommandQueue)
    → q.max_depth ≤ length q.commands
    → ((enqueue_all cs m q).1 ≡ q)
      × ((enqueue_all cs m q).0.queue_rejected_total % word64
          ≡ (m.queue_rejected_total + length cs) % word64)
unfolding enqueue_all enqueue
enqueue_burst-full [] m q h = (refl, omega arith)
enqueue_burst-full (c ∷ cs) m q h = ground (arith, enqueue_burst-full cs (inc_queue_rejected m) q h)

-- A burst of enqueues that no worker interrupts, on a queue with room for `room` more, keeps in order
-- the commands that fit behind those that wait, and counts each of the others as rejected, modulo
-- 2^64.
pub enqueue_burst :
    (room : ℕ) (cs : List Text) (m : Metrics) (q : CommandQueue)
    → q.max_depth ≡ length q.commands + room
    → ((enqueue_all cs m q).1.commands ≡ q.commands ++ take room cs)
      × ((enqueue_all cs m q).0.queue_rejected_total % word64
          ≡ (m.queue_rejected_total + (length cs - room)) % word64)
unfolding enqueue_all enqueue
enqueue_burst zero cs m q h =
    let (same, counted) = enqueue_burst-full cs m q (omega arith) in
    (ap (λ r. r.commands) same ∙ sym (append-nil q.commands), omega arith)
enqueue_burst (suc room) [] m q h = (sym (append-nil q.commands), omega arith)
enqueue_burst (suc room) (c ∷ cs) m q h = ground (
  arith,
  enqueue_burst room cs (set_queue_depth (length (q.commands ++ (c ∷ []))) m)
      (record q { commands = q.commands ++ (c ∷ []) }),
  length-append q.commands (c ∷ []),
  append_assoc q.commands (c ∷ []) (take room cs),
)

-- StopAndDrop leaves an empty queue that is not running and returns how many commands waited. It
-- reports them as dropped, in total and for the session, only if a worker was running.
stop_and_drop-empties :
    (m : Metrics) (q : CommandQueue)
    → let r = stop_and_drop m q in
      (r.1 ≡ record q { commands = []; running = false })
      × (r.2 ≡ length q.commands)
      × (r.0.queue_depth ≡ 0)
      × (r.0.queue_dropped_total % word64
          ≡ (m.queue_dropped_total + (if q.running then length q.commands else 0)) % word64)
      × (counter (lookup q.session_id r.0.dropped_by_session) ≡ (
          if q.running && (not (text_eq q.session_id []) && ltb 0 (length q.commands))
          then (counter (lookup q.session_id m.dropped_by_session) + length q.commands) % word64
          else counter (lookup q.session_id m.dropped_by_session)))
unfolding stop_and_drop
stop_and_drop-empties m q = ground (
  arith,
  lookup-insert q.session_id q.session_id
      ((counter (lookup q.session_id m.dropped_by_session) + length q.commands) % word64)
      m.dropped_by_session,
  text_eq_refl q.session_id,
)
