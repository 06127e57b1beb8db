-- ===== src/Gateway/Hub/Delivery.antt =====
-- What a broadcast does to each client, and that it keeps the hub's invariant.
use native.Mathlib.Decide.{dec_lt}
use arda_wed_gateway.Base.{
  ℕ, ◌≡◌, ◌≤◌, refl, ◌∙◌, subst, Bool, true, false, ◌||◌, Option, none, some, List, [], ◌∷◌, arith,
  ltb, ◌==◌, if◌then◌else◌, length, All, Bool-cases, ==_iff, inl, inr, Option-cases,
}
use arda_wed_gateway.Gateway.Event.{TerminalEvent}
use arda_wed_gateway.Gateway.Metrics.{Metrics}
use arda_wed_gateway.Gateway.Hub.{
  Client, Hub, find, update, shut, is_registered, remove, targets, push_event, broadcast_one,
  broadcast_each, broadcast, send_capacity,
}
use arda_wed_gateway.Gateway.Hub.Registry.{
  Below, IsValid, broadcast_one-room, broadcast_one-full, broadcast_one-IsValid, registered-open,
}

-- The effect of a broadcast on one client: a registered one gets the event behind those that wait,
-- or is cut off where 32 wait already.
unfoldable pub deliver : TerminalEvent → Client → Client
deliver e c =
    if c.registered
    then (if ltb (length c.send) send_capacity then push_event e c else shut c)
    else c

abbrev pub map_client : (Client → Client) → Option Client → Option Client
map_client f none = none
map_client f (some c) = some (f c)

unfoldable pub member : ℕ → List ℕ → Bool
member j [] = false
member j (i ∷ is) = i == j || member j is

abbrev pub IsDistinct : List ℕ → Type 0
IsDistinct [] = Unit {0}
IsDistinct (i ∷ is) = (member i is ≡ false) × IsDistinct is

abbrev AllRegistered : List Client → List ℕ → Type 0
AllRegistered cs = All (λ i. is_registered (find i cs) ≡ true)

find-update :
    (i j : ℕ) (f : Client → Client) (cs : List Client)
    → ((c : Client) → (f c).id ≡ c.id)
    → find j (update i f cs) ≡ (if i == j then map_client f (find j cs) else find j cs)
unfolding find update
find-update i j f [] k = ground arith
find-update i j f (c ∷ cs) k = ground (arith, k c, find-update i j f cs k)

remove-find :
    (i j : ℕ) (m : Metrics) (h : Hub)
    → is_registered (find i h.clients) ≡ true
    → find j (remove i m h).1.clients
      ≡ (if i == j then map_client shut (find j h.clients) else find j h.clients)
unfolding remove
remove-find i j m h r = rw r (find-update i j shut h.clients (λ c. refl))

broadcast_one-find :
    (e : TerminalEvent) (i j : ℕ) (m : Metrics) (h : Hub)
    → is_registered (find i h.clients) ≡ true
    → IsValid m h
    → find j (broadcast_one e i (m, h)).1.clients
      ≡ (if i == j then map_client (deliver e) (find j h.clients) else find j h.clients)
unfolding deliver
broadcast_one-find e i j m h r v = elim (Option-cases (find i h.clients)) [
  | inl p ↦ absurd (ground arith)
  | inr (c, p) ↦ elim (dec_lt (length c.send) send_capacity) [
    | yes lt ↦
        rw (broadcast_one-room e i m h c p (registered-open i h c v p r) lt)
          (find-update i j (push_event e) h.clients (λ d. refl) ∙ ground arith)
    | no ge ↦
        rw (broadcast_one-full e i m h c p (registered-open i h c v p r) (omega arith))
          (remove-find i j m h r ∙ ground arith)
  ]
]

find-Below :
    (n j : ℕ) (cs : List Client)
    → Below n cs
    → n ≤ j
    → (find j cs ≡ none) × (member j (targets cs) ≡ false)
unfolding find targets member
find-Below n j [] b l = (refl, refl)
find-Below n j (c ∷ cs) b l = ground (arith, find-Below c.id j cs b.1)

member-targets :
    (n j : ℕ) (cs : List Client) → Below n cs → member j (targets cs) ≡ is_registered (find j cs)
unfolding find targets member
member-targets n j [] b = refl
member-targets n j (c ∷ cs) b =
    ground (arith, find-Below c.id j cs b.1, member-targets c.id j cs b.1)

targets-IsDistinct : (n : ℕ) (cs : List Client) → Below n cs → IsDistinct (targets cs)
unfolding targets
targets-IsDistinct n [] b = tt
targets-IsDistinct n (c ∷ cs) b =
    ground (arith, find-Below c.id c.id cs b.1, targets-IsDistinct c.id cs b.1)

keep-registered :
    (i : ℕ) (is : List ℕ) (f : Client → Client) (cs cs' : List Client)
    → ((j : ℕ) → find j cs' ≡ (if i == j then map_client f (find j cs) else find j cs))
    → member i is ≡ false
    → AllRegistered cs is
    → AllRegistered cs' is
unfolding member
keep-registered i [] f cs cs' k d r = tt
keep-registered i (j ∷ is) f cs cs' k d r =
    (ground (arith, k j), keep-registered i is f cs cs' k (ground arith) r.1)

find-twice :
    (i j : ℕ) (is : List ℕ) (f : Client → Client) (x y z : Option Client)
    → member i is ≡ false
    → y ≡ (if i == j then map_client f x else x)
    → z ≡ (if member j is then map_client f y else y)
    → z ≡ (if member j (i ∷ is) then map_client f x else x)
unfolding member
find-twice i j is f x y z d p q = elim (Bool-cases (i == j)) [
  | inl e ↦
      let same : member j is ≡ false = subst (λ k. member k is ≡ false) ((==_iff i j).0 e) d in
      q ∙ rw (same, p, e)
  | inr e ↦ q ∙ rw (p, e)
]

-- The deliveries of a loop reach the clients behind the listed identities, once each.
pub broadcast_each-find :
    (e : TerminalEvent) (is : List ℕ) (m : Metrics) (h : Hub)
    → IsDistinct is
    → AllRegistered h.clients is
    → IsValid m h
    → IsValid (broadcast_each e is (m, h)).0 (broadcast_each e is (m, h)).1
      × ((j : ℕ)
          → find j (broadcast_each e is (m, h)).1.clients
            ≡ (if member j is then map_client (deliver e) (find j h.clients) else find j h.clients))
unfolding broadcast_each member
broadcast_each-find e [] m h d r v = (v, λ j. refl)
broadcast_each-find e (i ∷ is) m h d r v =
    let step : (j : ℕ)
        → find j (broadcast_one e i (m, h)).1.clients
          ≡ (if i == j then map_client (deliver e) (find j h.clients) else find j h.clients) =
      λ j. broadcast_one-find e i j m h r.0 v in
    let (valid, found) =
      broadcast_each-find e is (broadcast_one e i (m, h)).0 (broadcast_one e i (m, h)).1 d.1
        (keep-registered i is (deliver e) h.clients _ step d.0 r.1)
        (broadcast_one-IsValid e i m h r.0 v) in
    (valid, λ j. find-twice i j is (deliver e) _ _ _ d.0 (step j) (found j))

targets-AllRegistered :
    (cs : List Client) (is : List ℕ)
    → ((j : ℕ) → member j is ≡ true → is_registered (find j cs) ≡ true)
    → AllRegistered cs is
targets-AllRegistered cs [] k = tt
targets-AllRegistered cs (i ∷ is) k = (
  k i (unfold member in ground arith),
  targets-AllRegistered cs is (λ j p. k j (unfold member in ground arith)),
)

reached :
    (e : TerminalEvent) (o : Option Client)
    → (if is_registered o then map_client (deliver e) o else o) ≡ map_client (deliver e) o
unfolding deliver
reached e none = refl
reached e (some c) = ground arith

-- A broadcast on a hub in order leaves it in order, so no send panics and the gauge counts the
-- registered clients; each registered client has the event behind those that wait for it, or is
-- removed if 32 wait already, and any other client is as it was.
pub broadcast-find :
    (e : TerminalEvent) (m : Metrics) (h : Hub)
    → IsValid m h
    → IsValid (broadcast e m h).0 (broadcast e m h).1
      × ((j : ℕ) → find j (broadcast e m h).1.clients ≡ map_client (deliver e) (find j h.clients))
unfolding broadcast
broadcast-find e m h v =
    let listed : (j : ℕ) → member j (targets h.clients) ≡ is_registered (find j h.clients) =
      λ j. member-targets h.next_id j h.clients v.fresh in
    let (valid, found) =
      broadcast_each-find e (targets h.clients) m h (targets-IsDistinct h.next_id h.clients v.fresh)
        (targets-AllRegistered h.clients (targets h.clients) (λ j p. rw (listed j) at p)) v in
    (valid, λ j. found j ∙ rw (listed j) (reached e (find j h.clients)))
