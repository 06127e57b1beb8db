-- ===== src/Gateway/Queue/System/Order.antt =====
-- What leaves the queue, and in which order, in every interleaving of callers and workers.
use arda_wed_gateway.Base.{
  ℕ, ◌≡◌, ◌≤◌, refl, ap, ◌∙◌, Bool, Option, none, some, List, [], ◌∷◌, ◌++◌, map, arith, length,
  length-append, append-nil, append_assoc,
}
use arda_wed_gateway.Base.Text.{Text}
use arda_wed_gateway.Base.Word.{ℤ, pos, negsuc}
use arda_wed_gateway.Gateway.Metrics.{Metrics, observe_queue_send_latency}
use arda_wed_gateway.Gateway.Queue.{new_command_queue, stop_finish}
use arda_wed_gateway.Gateway.Queue.System.{
  Worker, Fate, popped, System, initial, start_queue, enqueue_command, tick, drop_all, stop_queue,
  finish_send, Step, starts, enqueues, ticks, sends, exits, stops, returns, Reach, here, next,
}

abbrev pub names : List (Text × Fate) → List Text
names = map (λ e. e.0)

-- The commands that entered are, in order, those that left and those that wait.
pub record IsOrdered (n : ℕ) (s : System) : Type 0 where
  pub in_order : s.entered ≡ names s.taken ++ s.queue.commands
  pub bounded : length s.queue.commands ≤ n
  pub limit : s.queue.max_depth ≡ n
  pub gauge : s.metrics.queue_depth ≡ length s.queue.commands

names-append : (xs ys : List (Text × Fate)) → names (xs ++ ys) ≡ names xs ++ names ys
names-append [] ys = refl
names-append (x ∷ xs) ys = ap (◌∷◌ x.0) (names-append xs ys)

names-drop_all : (cs : List Text) → names (drop_all cs) ≡ cs
unfolding drop_all
names-drop_all [] = refl
names-drop_all (c ∷ cs) = ap (◌∷◌ c) (names-drop_all cs)

initial-IsOrdered : (id : Text) (n : ℕ) → IsOrdered n (initial id n)
unfolding new_command_queue
initial-IsOrdered id n = record {
  in_order = refl;
  bounded = omega arith;
  limit = refl;
  gauge = refl;
}

start-IsOrdered : (n : ℕ) (s : System) → IsOrdered n s → IsOrdered n (start_queue s)
unfolding start_queue
start-IsOrdered n s v = ground arith

enqueue-IsOrdered :
    (n : ℕ) (c : Text) (s : System) → IsOrdered n s → IsOrdered n (enqueue_command c s)
unfolding enqueue_command
enqueue-IsOrdered n c s v = ground (
  arith,
  append_assoc (names s.taken) s.queue.commands (c ∷ []),
  length-append s.queue.commands (c ∷ []),
)

tick-IsOrdered :
    (n : ℕ) (before : List Worker) (b : Bool) (after : List Worker) (s : System) (cs : List Text)
    → s.queue.commands ≡ cs
    → IsOrdered n s
    → IsOrdered n (tick before b after s)
unfolding tick
tick-IsOrdered n before b after s [] e v = ground arith
tick-IsOrdered n before b after s (c ∷ cs) e v =
    ground
      (arith, names-append s.taken ((c, popped) ∷ []), append_assoc (names s.taken) (c ∷ []) cs)

stop-IsOrdered : (n : ℕ) (s : System) → IsOrdered n s → IsOrdered n (stop_queue s)
unfolding stop_queue
stop-IsOrdered n s v = record {
  in_order = v.in_order ∙ rw (append-nil, names-append, names-drop_all);
  bounded = omega arith;
  limit = v.limit;
  gauge = refl;
}

finish-IsOrdered :
    (n : ℕ) (before : List Worker) (b : Bool) (after : List Worker) (r : Option ℤ) (s : System)
    → IsOrdered n s
    → IsOrdered n (finish_send before b after r s)
unfolding finish_send observe_queue_send_latency
finish-IsOrdered n before b after none s v = ground arith
finish-IsOrdered n before b after (some (negsuc d)) s v = ground arith
finish-IsOrdered n before b after (some (pos d)) s v = ground arith

queue_depth-stop_finish :
    (id : Text) (n : ℕ) (m : Metrics) → (stop_finish id n m).queue_depth ≡ m.queue_depth
unfolding stop_finish
queue_depth-stop_finish id n m = ground arith

Step-IsOrdered : {s t : System} (n : ℕ) → Step s t → IsOrdered n s → IsOrdered n t
Step-IsOrdered {s} n starts v = start-IsOrdered n s v
Step-IsOrdered {s} n (enqueues c) v = enqueue-IsOrdered n c s v
Step-IsOrdered {s} n (ticks before b after e) v =
    tick-IsOrdered n before b after s s.queue.commands refl v
Step-IsOrdered {s} n (sends before b c after r e) v = finish-IsOrdered n before b after r s v
Step-IsOrdered n (exits before after e) v = record {
  in_order = v.in_order;
  bounded = v.bounded;
  limit = v.limit;
  gauge = v.gauge;
}
Step-IsOrdered {s} n stops v = stop-IsOrdered n s v
Step-IsOrdered {s} n (returns before d after e) v = record {
  in_order = v.in_order;
  bounded = v.bounded;
  limit = v.limit;
  gauge = queue_depth-stop_finish s.queue.session_id d s.metrics ∙ v.gauge;
}

-- In every interleaving of enqueues, ticks, sends, stops and restarts: the accepted commands are, in
-- order, those that left the queue and then those that wait; no more than the maximal depth wait;
-- and the gauge shows how many.
pub Reach-IsOrdered : {id : Text} {n : ℕ} {s : System} → Reach id n s → IsOrdered n s
Reach-IsOrdered {id} {n} here = initial-IsOrdered id n
Reach-IsOrdered {n} (next r st) = Step-IsOrdered n st (Reach-IsOrdered r)
