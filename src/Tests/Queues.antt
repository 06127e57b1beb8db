-- ===== src/Tests/Queues.antt =====
-- queue.go at concrete commands and one interleaving.
use arda_wed_gateway.Base.{◌≡◌, ◌+◌, ◌-◌, ◌%◌, refl, false, none, List, [], ◌∷◌, ◌++◌, take, length}
use arda_wed_gateway.Base.Text.{Text, codes}
use arda_wed_gateway.Base.Word.{word64}
use arda_wed_gateway.Gateway.Metrics.{new_metrics}
use arda_wed_gateway.Gateway.Queue.{CommandQueue, new_command_queue}
use arda_wed_gateway.Gateway.Queue.Calls.{enqueue_all, enqueue_burst}
use arda_wed_gateway.Gateway.Queue.System.{
  System, initial, start_queue, enqueue_command, tick, stop_queue, starts, enqueues, ticks, stops,
  Reach, here, next,
}
use arda_wed_gateway.Gateway.Queue.System.Order.{IsOrdered, Reach-IsOrdered}
use arda_wed_gateway.Gateway.Queue.System.Counts.{IsCounted, Reach-IsCounted}

abbrev look : Text
look = codes "look"

abbrev burst : List Text
burst = look ∷ codes "north" ∷ codes "flee" ∷ []

abbrev empty_queue : CommandQueue
empty_queue = new_command_queue (codes "s-1") 2

room_for_two : empty_queue.max_depth ≡ length empty_queue.commands + 2
unfolding new_command_queue
room_for_two = refl

enqueue_burst_example :
    ((enqueue_all burst new_metrics empty_queue).1.commands ≡ empty_queue.commands ++ take 2 burst)
    × ((enqueue_all burst new_metrics empty_queue).0.queue_rejected_total % word64
        ≡ (new_metrics.queue_rejected_total + (length burst - 2)) % word64)
enqueue_burst_example = enqueue_burst 2 burst new_metrics empty_queue room_for_two

-- A start, two commands, a tick that pops the first, and a stop that drops the other.
abbrev filled : System
filled =
    enqueue_command (codes "north") (enqueue_command look (start_queue (initial (codes "s-1") 2)))

abbrev stopped_system : System
stopped_system = stop_queue (tick [] false [] filled)

one_idle : filled.workers ≡ record { stopped = false; job = none } ∷ []
unfolding enqueue_command start_queue new_command_queue
one_idle = refl

stopped_system-Reach : Reach (codes "s-1") 2 stopped_system
stopped_system-Reach =
    next
      (next (next (next (next here starts) (enqueues look)) (enqueues (codes "north")))
        (ticks [] false [] one_idle))
      stops

Reach-IsOrdered_example : IsOrdered 2 stopped_system
Reach-IsOrdered_example = Reach-IsOrdered stopped_system-Reach

Reach-IsCounted_example : IsCounted stopped_system
Reach-IsCounted_example = Reach-IsCounted stopped_system-Reach
