-- ===== src/Gateway/Queue/System.antt =====
-- The queue with its workers and callers as interleaved steps. A step is what one goroutine does
-- under the queue's lock, or between two blocking operations.
pub mod Order
pub mod Counts
use arda_wed_gateway.Base.{
  ℕ, suc, ◌+◌, ◌≡◌, Bool, true, false, Option, none, some, List, [], ◌∷◌, ◌++◌, map, if◌then◌else◌,
}
use arda_wed_gateway.Base.Text.{Text}
use arda_wed_gateway.Base.Word.{ℤ}
use arda_wed_gateway.Gateway.Metrics.{Metrics, new_metrics}
use arda_wed_gateway.Gateway.Queue.{
  CommandQueue, new_command_queue, Enqueued, accepted, rejected, enqueue, start, pop, stop_begin,
  stop_finish, send_failed, send_succeeded,
}

-- A goroutine in `run`: whether its stopCh is closed, and the command that its sender works on.
pub record Worker : Type 0 where
  pub stopped : Bool
  pub job : Option Text

-- What became of an accepted command when it left the queue.
pub data Fate : Type 0 where
  popped dropped : Fate

-- `stops` holds the calls of StopAndDrop that wait for a worker, each with what it dropped.
-- `taken` and `entered` record what left and what entered the queue, in order.
pub record System : Type 0 where
  pub queue : CommandQueue
  pub metrics : Metrics
  pub workers : List Worker
  pub stops : List ℕ
  pub entered : List Text
  pub taken : List (Text × Fate)

abbrev pub initial : Text → ℕ → System
initial session_id max_depth = record {
  queue = new_command_queue session_id max_depth;
  metrics = new_metrics;
  workers = [];
  stops = [];
  entered = [];
  taken = [];
}

abbrev idle_worker : Worker
idle_worker = record { stopped = false; job = none }

-- Start: a new worker, unless the queue is running.
unfoldable pub start_queue : System → System
unfolding start
start_queue s =
    let (q, starts_worker) = start s.queue in
    record s { queue = q; workers = if starts_worker then idle_worker ∷ s.workers else s.workers }

log_entry : Text → Enqueued → List Text → List Text
log_entry c (accepted d) l = l ++ (c ∷ [])
log_entry c (rejected d) l = l

unfoldable pub enqueue_command : Text → System → System
unfolding log_entry enqueue
enqueue_command c s =
    let (m, q, r) = enqueue c s.metrics s.queue in
    record s { queue = q; metrics = m; entered = log_entry c r s.entered }

log_pop : Option Text → List (Text × Fate) → List (Text × Fate)
log_pop none l = l
log_pop (some c) l = l ++ ((c, popped) ∷ [])

-- A tick of a worker that waits; with stopCh closed too, Go's select may still choose the tick.
pub tick : List Worker → Bool → List Worker → System → System
unfolding log_pop pop
tick before stopped after s =
    let (m, q, c) = pop s.metrics s.queue in
    record s {
      queue = q;
      metrics = m;
      workers = before ++ (record { stopped = stopped; job = c } ∷ after);
      taken = log_pop c s.taken;
    }

pub drop_all : List Text → List (Text × Fate)
drop_all [] = []
drop_all (c ∷ cs) = (c, dropped) ∷ drop_all cs

abbrev pub close_worker : Worker → Worker
close_worker w = record w { stopped = true }

-- StopAndDrop as far as closing stopCh; earlier workers have theirs closed already.
pub stop_queue : System → System
unfolding drop_all stop_begin
stop_queue s =
    let (m, q, (n, was_running)) = stop_begin s.metrics s.queue in
    record s {
      queue = q;
      metrics = m;
      workers = if was_running then map close_worker s.workers else s.workers;
      stops = if was_running then n ∷ s.stops else s.stops;
      taken = s.taken ++ drop_all s.queue.commands;
    }

-- The sender returned: with an error (`none`), or after the time it took.
pub finish_send : List Worker → Bool → List Worker → Option ℤ → System → System
unfolding send_failed send_succeeded
finish_send before stopped after r s = record s {
  metrics = elim r [ none ↦ send_failed s.metrics | some d ↦ send_succeeded d s.metrics ];
  workers = before ++ (record { stopped = stopped; job = none } ∷ after);
}

pub data Step (s : System) : System → Type 0 where
  starts : Step s (start_queue s)
  enqueues : (c : Text) → Step s (enqueue_command c s)
  ticks :
      (before : List Worker) (b : Bool) (after : List Worker)
      → s.workers ≡ before ++ (record { stopped = b; job = none } ∷ after)
      → Step s (tick before b after s)
  sends :
      (before : List Worker) (b : Bool) (c : Text) (after : List Worker) (r : Option ℤ)
      → s.workers ≡ before ++ (record { stopped = b; job = some c } ∷ after)
      → Step s (finish_send before b after r s)
  exits :
      (before after : List Worker)
      → s.workers ≡ before ++ (record { stopped = true; job = none } ∷ after)
      → Step s (record s { workers = before ++ after })
  stops : Step s (stop_queue s)
  -- A stop returns once its worker is gone; which of the waiting ones returns first is left open.
  returns :
      (before : List ℕ) (n : ℕ) (after : List ℕ)
      → s.stops ≡ before ++ (n ∷ after)
      → Step s (record s {
        stops = before ++ after;
        metrics = stop_finish s.queue.session_id n s.metrics;
      })

pub data Reach (session_id : Text) (max_depth : ℕ) : System → Type 0 where
  here : Reach session_id max_depth (initial session_id max_depth)
  next : {s t : System} → Reach session_id max_depth s → Step s t → Reach session_id max_depth t
