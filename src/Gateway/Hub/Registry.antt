-- ===== src/Gateway/Hub/Registry.antt =====
-- The hub's invariant: identities, open channels, the bound of the buffers and the gauge.
use arda_wed_gateway.Base.{
  ℕ, ◌+◌, ◌%◌, ◌≡◌, ◌≤◌, ◌<◌, refl, ◌∙◌, subst, true, false, not, some, List, [], ◌∷◌, ◌++◌, arith,
  ◌==◌, if◌then◌else◌, length, length-append, All, Bool-cases, inl, inr, Option-cases,
}
use native.Mathlib.Decide.{dec_lt}
use arda_wed_gateway.Base.Word.{word64}
use arda_wed_gateway.Gateway.Event.{TerminalEvent}
use arda_wed_gateway.Gateway.Metrics.{Metrics, new_metrics, inc_ws_connections, dec_ws_connections}
use arda_wed_gateway.Gateway.Hub.{
  Client, Hub, new_hub, add, find, update, shut, is_registered, remove, push_event, broadcast_one,
  send_capacity,
}

-- Identities fall along the list and stay under the bound.
abbrev pub Below : ℕ → List Client → Type 0
Below n [] = Unit {0}
Below n (c ∷ cs) = (c.id < n) × Below c.id cs

-- A channel is open exactly while its client is registered, and holds 32 events at most.
pub record IsSound (c : Client) : Type 0 where
  pub open_while : c.closed ≡ not c.registered
  pub bounded : length c.send ≤ send_capacity

unfoldable pub registered_count : List Client → ℕ
registered_count [] = 0
registered_count (c ∷ cs) = (if c.registered then 1 else 0) + registered_count cs

pub record IsValid (m : Metrics) (h : Hub) : Type 0 where
  pub fresh : Below h.next_id h.clients
  pub sound : All IsSound h.clients
  pub gauge : m.ws_connections ≡ registered_count h.clients % word64
  pub alive : h.crashed ≡ false

pub add-IsValid : (m : Metrics) (h : Hub) → IsValid m h → IsValid (add m h).0 (add m h).1
unfolding add registered_count inc_ws_connections
add-IsValid m h v = record {
  fresh = (omega arith, v.fresh);
  sound = (record { open_while = refl; bounded = omega arith }, v.sound);
  gauge = ground (arith, v.gauge);
  alive = v.alive;
}

pub Below-update :
    (n i : ℕ) (f : Client → Client) (cs : List Client)
    → ((c : Client) → (f c).id ≡ c.id)
    → Below n cs
    → Below n (update i f cs)
unfolding update
Below-update n i f [] k b = tt
Below-update n i f (c ∷ cs) k b = ground (arith, k c, Below-update c.id i f cs k b.1)

pub IsSound-update :
    (i : ℕ) (f : Client → Client) (cs : List Client)
    → All IsSound cs
    → ((c : Client) → find i cs ≡ some c → IsSound c → IsSound (f c))
    → All IsSound (update i f cs)
unfolding update find
IsSound-update i f [] h k = tt
IsSound-update i f (c ∷ cs) h k = elim (Bool-cases (c.id == i)) [
  | inl e ↦ rw e (k c (rw e) h.0, h.1)
  | inr e ↦ rw e (h.0, IsSound-update i f cs h.1 (λ d p. k d (rw e p)))
]

IsSound-find :
    (i : ℕ) (cs : List Client) (c : Client) → All IsSound cs → find i cs ≡ some c → IsSound c
unfolding find
IsSound-find i [] c h e = cc
IsSound-find i (d ∷ cs) c h e = elim (Bool-cases (d.id == i)) [
  | inl p ↦ let q : d ≡ c = ground arith in subst IsSound q h.0
  | inr p ↦ IsSound-find i cs c h.1 (rw p at e)
]

count-push :
    (i : ℕ) (e : TerminalEvent) (cs : List Client)
    → registered_count (update i (push_event e) cs) ≡ registered_count cs
unfolding update registered_count
count-push i e [] = refl
count-push i e (c ∷ cs) = ground (arith, count-push i e cs)

count-shut :
    (i : ℕ) (cs : List Client)
    → is_registered (find i cs) ≡ true
    → registered_count (update i shut cs) + 1 ≡ registered_count cs
unfolding update registered_count find
count-shut i [] h = cc
count-shut i (c ∷ cs) h = ground (arith, count-shut i cs)

pub remove-IsValid :
    (i : ℕ) (m : Metrics) (h : Hub) → IsValid m h → IsValid (remove i m h).0 (remove i m h).1
unfolding remove dec_ws_connections
remove-IsValid i m h v = elim (Bool-cases (is_registered (find i h.clients))) [
  | inl e ↦ rw e (record {
    fresh = Below-update h.next_id i shut h.clients (λ c. refl) v.fresh;
    sound =
        IsSound-update i shut h.clients v.sound
          (λ c _ s. record { open_while = refl; bounded = s.bounded });
    gauge = omega (arith, count-shut i h.clients e);
    alive = v.alive;
  })
  | inr e ↦ rw e v
]

pub broadcast_one-room :
    (e : TerminalEvent) (i : ℕ) (m : Metrics) (h : Hub) (c : Client)
    → find i h.clients ≡ some c
    → c.closed ≡ false
    → length c.send < send_capacity
    → broadcast_one e i (m, h) ≡ (m, record h { clients = update i (push_event e) h.clients })
unfolding broadcast_one
broadcast_one-room e i m h c p o r = ground arith

pub broadcast_one-full :
    (e : TerminalEvent) (i : ℕ) (m : Metrics) (h : Hub) (c : Client)
    → find i h.clients ≡ some c
    → c.closed ≡ false
    → send_capacity ≤ length c.send
    → broadcast_one e i (m, h) ≡ remove i m h
broadcast_one-full e i m h c p o r = unfold broadcast_one in (rw p (ground arith))

-- A registered client has an open channel.
pub registered-open :
    (i : ℕ) (h : Hub) (c : Client) {m : Metrics}
    → IsValid m h
    → find i h.clients ≡ some c
    → is_registered (find i h.clients) ≡ true
    → c.closed ≡ false
registered-open i h c v p r = let s = IsSound-find i h.clients c v.sound p in ground arith

push-IsValid :
    (e : TerminalEvent) (i : ℕ) (m : Metrics) (h : Hub) (c : Client)
    → find i h.clients ≡ some c
    → length c.send < send_capacity
    → IsValid m h
    → IsValid m (record h { clients = update i (push_event e) h.clients })
push-IsValid e i m h c p r v = record {
  fresh = Below-update h.next_id i (push_event e) h.clients (λ d. refl) v.fresh;
  sound =
      IsSound-update i (push_event e) h.clients v.sound
        (λ d q s. record { open_while = s.open_while; bounded = fits d q });
  gauge = v.gauge ∙ rw (count-push i e h.clients);
  alive = v.alive;
}
  where
    fits : (d : Client) → find i h.clients ≡ some d → length (d.send ++ (e ∷ [])) ≤ send_capacity
    fits d q = let same : c ≡ d = ground arith in ground (arith, length-append d.send (e ∷ []))

-- One delivery to a registered client keeps the invariant: its channel is open, so nothing panics.
pub broadcast_one-IsValid :
    (e : TerminalEvent) (i : ℕ) (m : Metrics) (h : Hub)
    → is_registered (find i h.clients) ≡ true
    → IsValid m h
    → IsValid (broadcast_one e i (m, h)).0 (broadcast_one e i (m, h)).1
broadcast_one-IsValid e i m h r v = elim (Option-cases (find i h.clients)) [
  | inl p ↦ absurd (ground arith)
  | inr (c, p) ↦ elim (dec_lt (length c.send) send_capacity) [
    | yes lt ↦
        rw (broadcast_one-room e i m h c p (registered-open i h c v p r) lt)
          (push-IsValid e i m h c p lt v)
    | no ge ↦
        rw (broadcast_one-full e i m h c p (registered-open i h c v p r) (omega arith))
          (remove-IsValid i m h v)
  ]
]

pub new_hub-IsValid : IsValid new_metrics new_hub
unfolding registered_count
new_hub-IsValid = record { fresh = tt; sound = tt; gauge = refl; alive = refl }
