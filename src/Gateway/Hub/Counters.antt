-- ===== src/Gateway/Hub/Counters.antt =====
-- What a broadcast leaves of the counters: it changes the gauge of the connections only.
use arda_wed_gateway.Base.{ℕ, ◌≡◌, ◌∙◌, refl, List, [], ◌∷◌, arith}
use arda_wed_gateway.Gateway.Event.{TerminalEvent}
use arda_wed_gateway.Gateway.Metrics.{Metrics}
use arda_wed_gateway.Gateway.Hub.{Hub, remove, targets, broadcast_one, broadcast_each, broadcast}

remove-sent :
    (i : ℕ) (m : Metrics) (h : Hub) → (remove i m h).0.queue_sent_total ≡ m.queue_sent_total
unfolding remove
remove-sent i m h = ground arith

broadcast_one-sent :
    (e : TerminalEvent) (i : ℕ) (m : Metrics) (h : Hub)
    → (broadcast_one e i (m, h)).0.queue_sent_total ≡ m.queue_sent_total
unfolding broadcast_one
broadcast_one-sent e i m h = ground (arith, remove-sent i m h)

broadcast_each-sent :
    (e : TerminalEvent) (is : List ℕ) (m : Metrics) (h : Hub)
    → (broadcast_each e is (m, h)).0.queue_sent_total ≡ m.queue_sent_total
unfolding broadcast_each
broadcast_each-sent e [] m h = refl
broadcast_each-sent e (i ∷ is) m h =
    let (m1, h1) = broadcast_one e i (m, h) in
    broadcast_each-sent e is m1 h1 ∙ broadcast_one-sent e i m h

pub broadcast-sent :
    (e : TerminalEvent) (m : Metrics) (h : Hub)
    → (broadcast e m h).0.queue_sent_total ≡ m.queue_sent_total
unfolding broadcast
broadcast-sent e m h = broadcast_each-sent e (targets h.clients) m h
