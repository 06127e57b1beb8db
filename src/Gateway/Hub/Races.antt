-- ===== src/Gateway/Hub/Races.antt =====
-- A broadcast copies the clients under the lock and sends to them without it.
use arda_wed_gateway.Base.{
  ℕ, ◌≡◌, refl, Bool, true, Option, none, some, List, [], ◌∷◌, arith, ◌==◌, ==_iff, Bool-cases, inl,
  inr, subst,
}
use arda_wed_gateway.Gateway.Event.{TerminalEvent}
use arda_wed_gateway.Gateway.Metrics.{Metrics}
use arda_wed_gateway.Gateway.Hub.{
  Client, Hub, find, update, shut, is_registered, remove, push_event, broadcast_one, broadcast_each,
}
use arda_wed_gateway.Gateway.Hub.Delivery.{member}

abbrev pub is_closed : Option Client → Bool
is_closed none = true
is_closed (some c) = c.closed

find-remove :
    (i : ℕ) (m : Metrics) (h : Hub)
    → is_registered (find i h.clients) ≡ true
    → is_closed (find i (remove i m h).1.clients) ≡ true
unfolding remove
find-remove i m h r = rw r (go h.clients r)
  where
    go :
        (cs : List Client)
        → is_registered (find i cs) ≡ true
        → is_closed (find i (update i shut cs)) ≡ true
    go [] q = cc
    go (c ∷ cs) q = ground (arith, go cs)

closed-update :
    (i k : ℕ) (f : Client → Client) (cs : List Client)
    → ((c : Client) → (f c).id ≡ c.id)
    → ((c : Client) → c.closed ≡ true → (f c).closed ≡ true)
    → is_closed (find i cs) ≡ true
    → is_closed (find i (update k f cs)) ≡ true
unfolding find update
closed-update i k f [] p q h = refl
closed-update i k f (c ∷ cs) p q h = ground (arith, p c, q c, closed-update i k f cs p q)

broadcast_one-closed :
    (e : TerminalEvent) (i k : ℕ) (m : Metrics) (h : Hub)
    → is_closed (find i h.clients) ≡ true
    → is_closed (find i (broadcast_one e k (m, h)).1.clients) ≡ true
unfolding broadcast_one remove
broadcast_one-closed e i k m h c = ground (
  arith,
  closed-update i k (push_event e) h.clients (λ d. refl) (λ d p. p) c,
  closed-update i k shut h.clients (λ d. refl) (λ d p. refl) c,
)

broadcast_one-crashed :
    (e : TerminalEvent) (k : ℕ) (m : Metrics) (h : Hub)
    → h.crashed ≡ true
    → (broadcast_one e k (m, h)).1.crashed ≡ true
unfolding broadcast_one remove
broadcast_one-crashed e k m h c = ground arith

broadcast_each-crashed :
    (e : TerminalEvent) (is : List ℕ) (m : Metrics) (h : Hub)
    → h.crashed ≡ true
    → (broadcast_each e is (m, h)).1.crashed ≡ true
unfolding broadcast_each
broadcast_each-crashed e [] m h c = c
broadcast_each-crashed e (i ∷ is) m h c =
    broadcast_each-crashed e is _ _ (broadcast_one-crashed e i m h c)

panics_at :
    (e : TerminalEvent) (i : ℕ) (m : Metrics) (h : Hub)
    → is_closed (find i h.clients) ≡ true
    → (broadcast_one e i (m, h)).1.crashed ≡ true
unfolding broadcast_one
panics_at e i m h c = ground arith

closed_panics :
    (e : TerminalEvent) (i : ℕ) (is : List ℕ) (m : Metrics) (h : Hub)
    → is_closed (find i h.clients) ≡ true
    → member i is ≡ true
    → (broadcast_each e is (m, h)).1.crashed ≡ true
unfolding broadcast_each member
closed_panics e i [] m h c l = cc
closed_panics e i (k ∷ is) m h c l = elim (Bool-cases (k == i)) [
  | inl p ↦ broadcast_each-crashed e is _ _ (
      panics_at e k m h
        (subst (λ j. is_closed (find j h.clients) ≡ true) (ground (arith, ==_iff k i)) c))
  | inr p ↦ closed_panics e i is _ _ (broadcast_one-closed e i k m h c) (rw p at l)
]

-- If another goroutine removes a client after a broadcast copied it and before the loop reaches it,
-- the broadcast sends on a closed channel: the gateway panics, whatever else the hub holds.
pub remove_then_send_panics :
    (e : TerminalEvent) (i : ℕ) (is : List ℕ) (m : Metrics) (h : Hub)
    → is_registered (find i h.clients) ≡ true
    → member i is ≡ true
    → (broadcast_each e is (remove i m h)).1.crashed ≡ true
remove_then_send_panics e i is m h r l = closed_panics e i is _ _ (find-remove i m h r) l
