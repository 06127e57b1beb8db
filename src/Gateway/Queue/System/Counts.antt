-- ===== src/Gateway/Queue/System/Counts.antt =====
-- What the worker's counters say of the commands that left the queue, in every interleaving.
use arda_wed_gateway.Base.{
  ℕ, suc, ◌+◌, ◌%◌, ◌≡◌, refl, Bool, true, false, Option, none, some, List, [], ◌∷◌, ◌++◌, map,
  arith, if◌then◌else◌,
}
use arda_wed_gateway.Base.Text.{Text}
use arda_wed_gateway.Base.Word.{ℤ, pos, negsuc, word64}
use arda_wed_gateway.Gateway.Metrics.{Metrics, observe_queue_send_latency}
use arda_wed_gateway.Gateway.Queue.{new_command_queue, stop_finish}
use arda_wed_gateway.Gateway.Queue.System.{
  Worker, Fate, popped, dropped, System, initial, start_queue, enqueue_command, tick, drop_all,
  close_worker, stop_queue, finish_send, Step, starts, enqueues, ticks, sends, exits, stops,
  returns, Reach, here, next,
}

-- How many commands left by `pop`, how many workers are sending, and how many are not stopped.
pub pops : List (Text × Fate) → ℕ
pops [] = 0
pops ((c, popped) ∷ l) = suc (pops l)
pops ((c, dropped) ∷ l) = pops l

abbrev job_count : Option Text → ℕ
job_count none = 0
job_count (some c) = 1

pub sending : List Worker → ℕ
sending [] = 0
sending (w ∷ ws) = job_count w.job + sending ws

abbrev open_count : Bool → ℕ
open_count true = 0
open_count false = 1

pub unstopped : List Worker → ℕ
unstopped [] = 0
unstopped (w ∷ ws) = open_count w.stopped + unstopped ws

pub record IsCounted (s : System) : Type 0 where
  pub each_once :
      (s.metrics.queue_sent_total + s.metrics.queue_send_failed_total + sending s.workers) % word64
      ≡ pops s.taken % word64
  pub one_worker : unstopped s.workers ≡ (if s.queue.running then 1 else 0)

pops-append : (xs ys : List (Text × Fate)) → pops (xs ++ ys) ≡ pops xs + pops ys
unfolding pops
pops-append [] ys = omega arith
pops-append ((c, popped) ∷ l) ys = omega (arith, pops-append l ys)
pops-append ((c, dropped) ∷ l) ys = pops-append l ys

pops-drop_all : (cs : List Text) → pops (drop_all cs) ≡ 0
unfolding pops drop_all
pops-drop_all [] = refl
pops-drop_all (c ∷ cs) = pops-drop_all cs

sending-split :
    (xs : List Worker) (w : Worker) (ys : List Worker)
    → sending (xs ++ (w ∷ ys)) ≡ job_count w.job + sending (xs ++ ys)
unfolding sending
sending-split [] w ys = refl
sending-split (x ∷ xs) w ys = omega (arith, sending-split xs w ys)

unstopped-split :
    (xs : List Worker) (w : Worker) (ys : List Worker)
    → unstopped (xs ++ (w ∷ ys)) ≡ open_count w.stopped + unstopped (xs ++ ys)
unfolding unstopped
unstopped-split [] w ys = refl
unstopped-split (x ∷ xs) w ys = omega (arith, unstopped-split xs w ys)

close_all :
    (ws : List Worker)
    → (unstopped (map close_worker ws) ≡ 0) × (sending (map close_worker ws) ≡ sending ws)
unfolding unstopped sending
close_all [] = (refl, refl)
close_all (w ∷ ws) = let h = close_all ws in ground arith

start-IsCounted : (s : System) → IsCounted s → IsCounted (start_queue s)
unfolding start_queue sending unstopped
start-IsCounted s v = ground arith

enqueue-IsCounted : (c : Text) (s : System) → IsCounted s → IsCounted (enqueue_command c s)
unfolding enqueue_command
enqueue-IsCounted c s v = ground arith

tick-IsCounted :
    (before : List Worker) (b : Bool) (after : List Worker) (s : System) (cs : List Text)
    → s.queue.commands ≡ cs
    → s.workers ≡ before ++ (record { stopped = b; job = none } ∷ after)
    → IsCounted s
    → IsCounted (tick before b after s)
unfolding tick
tick-IsCounted before b after s [] e w v = ground arith
tick-IsCounted before b after s (c ∷ cs) e w v = ground (
  arith,
  pops-append s.taken ((c, popped) ∷ []),
  sending-split before (record { stopped = b; job = none }) after,
  sending-split before (record { stopped = b; job = some c }) after,
  unstopped-split before (record { stopped = b; job = none }) after,
  unstopped-split before (record { stopped = b; job = some c }) after,
  pop_one c,
)
  where
    pop_one : (c : Text) → pops ((c, popped) ∷ []) ≡ 1
    pop_one c = unfold pops in refl

pub observe-sent :
    (d : ℤ) (m : Metrics)
    → ((observe_queue_send_latency d m).queue_sent_total ≡ m.queue_sent_total)
      × ((observe_queue_send_latency d m).queue_send_failed_total ≡ m.queue_send_failed_total)
unfolding observe_queue_send_latency
observe-sent (negsuc n) m = (refl, refl)
observe-sent (pos n) m = ground arith

finish-IsCounted :
    (before : List Worker) (b : Bool) (c : Text) (after : List Worker) (r : Option ℤ) (s : System)
    → s.workers ≡ before ++ (record { stopped = b; job = some c } ∷ after)
    → IsCounted s
    → IsCounted (finish_send before b after r s)
unfolding finish_send
finish-IsCounted before b c after none s w v = ground (
  arith,
  sending-split before (record { stopped = b; job = none }) after,
  sending-split before (record { stopped = b; job = some c }) after,
  unstopped-split before (record { stopped = b; job = none }) after,
  unstopped-split before (record { stopped = b; job = some c }) after,
)
finish-IsCounted before b c after (some d) s w v = ground (
  arith,
  observe-sent d
      (record s.metrics { queue_sent_total = (s.metrics.queue_sent_total + 1) % word64 }),
  sending-split before (record { stopped = b; job = none }) after,
  sending-split before (record { stopped = b; job = some c }) after,
  unstopped-split before (record { stopped = b; job = none }) after,
  unstopped-split before (record { stopped = b; job = some c }) after,
)

stop-IsCounted : (s : System) → IsCounted s → IsCounted (stop_queue s)
unfolding stop_queue
stop-IsCounted s v = ground (
  arith,
  close_all s.workers,
  pops-append s.taken (drop_all s.queue.commands),
  pops-drop_all s.queue.commands,
)

exit-IsCounted :
    (before after : List Worker) (s : System)
    → s.workers ≡ before ++ (record { stopped = true; job = none } ∷ after)
    → IsCounted s
    → IsCounted (record s { workers = before ++ after })
exit-IsCounted before after s e v = ground (
  arith,
  sending-split before (record { stopped = true; job = none }) after,
  unstopped-split before (record { stopped = true; job = none }) after,
)

return-IsCounted :
    (ns : List ℕ) (n : ℕ) (s : System)
    → IsCounted s
    → IsCounted (record s { stops = ns; metrics = stop_finish s.queue.session_id n s.metrics })
unfolding stop_finish
return-IsCounted ns n s v = ground arith

Step-IsCounted : {s t : System} → Step s t → IsCounted s → IsCounted t
Step-IsCounted {s} starts v = start-IsCounted s v
Step-IsCounted {s} (enqueues c) v = enqueue-IsCounted c s v
Step-IsCounted {s} (ticks before b after e) v =
    tick-IsCounted before b after s s.queue.commands refl e v
Step-IsCounted {s} (sends before b c after r e) v = finish-IsCounted before b c after r s e v
Step-IsCounted {s} (exits before after e) v = exit-IsCounted before after s e v
Step-IsCounted {s} stops v = stop-IsCounted s v
Step-IsCounted {s} (returns before n after e) v = return-IsCounted (before ++ after) n s v

initial-IsCounted : (id : Text) (n : ℕ) → IsCounted (initial id n)
unfolding new_command_queue pops sending unstopped
initial-IsCounted id n = record { each_once = refl; one_worker = refl }

-- In every interleaving each command that a worker popped is sent or fails once: the two counters
-- and the sends under way make up the number of pops, modulo 2^64. And a running queue has exactly
-- one worker that is not told to stop, a queue that is not running has none.
pub Reach-IsCounted : {id : Text} {n : ℕ} {s : System} → Reach id n s → IsCounted s
Reach-IsCounted {id} {n} here = initial-IsCounted id n
Reach-IsCounted (next r st) = Step-IsCounted st (Reach-IsCounted r)
