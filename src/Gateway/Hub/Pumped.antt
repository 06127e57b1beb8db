-- ===== src/Gateway/Hub/Pumped.antt =====
-- The hub stays in order when a pump takes an event.
use arda_wed_gateway.Base.{ℕ, ◌%◌, ◌≡◌, refl, ◌∙◌, ap, sym, List, [], ◌∷◌, arith, Bool}
use arda_wed_gateway.Base.Word.{word64}
use arda_wed_gateway.Gateway.Event.{TerminalEvent}
use arda_wed_gateway.Gateway.Metrics.{Metrics}
use arda_wed_gateway.Gateway.Hub.{Client, Hub, update, next_event, taken_from, take_event}
use arda_wed_gateway.Gateway.Hub.Registry
use arda_wed_gateway.Gateway.Hub.Registry.{IsSound, registered_count, Below-update, IsSound-update}

pumped : Client → Client
unfolding next_event
pumped c = taken_from (next_event c) c

shrinks_of :
    (i : ℕ) (r : Bool) (l : List TerminalEvent) (closed : Bool)
    → let c : Client = record { id = i; registered = r; send = l; closed = closed } in
      IsSound c → IsSound (pumped c)
unfolding pumped next_event
shrinks_of i r [] closed v = v
shrinks_of i r (x ∷ l) closed v = record {
  open_while = v.open_while;
  bounded = omega (arith, v.bounded);
}

shrinks : (c : Client) → IsSound c → IsSound (pumped c)
shrinks c v = shrinks_of c.id c.registered c.send c.closed v

keeps_id : (c : Client) → (pumped c).id ≡ c.id
unfolding pumped next_event
keeps_id c = ground arith

count-pumped :
    (i : ℕ) (cs : List Client) → registered_count (update i pumped cs) ≡ registered_count cs
unfolding update registered_count pumped next_event
count-pumped i [] = refl
count-pumped i (c ∷ cs) = ground (arith, count-pumped i cs)

pub take_event-IsValid :
    (i : ℕ) (m : Metrics) (h : Hub) → Registry.IsValid m h → Registry.IsValid m (take_event i h)
unfolding take_event pumped
take_event-IsValid i m h v = record {
  fresh = Below-update h.next_id i pumped h.clients keeps_id v.fresh;
  sound = IsSound-update i pumped h.clients v.sound (λ c e s. shrinks c s);
  gauge = v.gauge ∙ ap (λ n. n % word64) (sym (count-pumped i h.clients));
  alive = v.alive;
}
