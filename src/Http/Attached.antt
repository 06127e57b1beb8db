-- ===== src/Http/Attached.antt =====
-- The life of a web client, from its handshake to the end of its connection.
use arda_wed_gateway.Base.{
  ◌+◌, ◌≤◌, ◌<◌, length, length-append, append_assoc, append-nil, ◌++◌, ltb, ℕ, ◌≡◌, refl, true,
  false, Option, none, some, List, [], ◌∷◌, arith, ap, ◌∙◌, Bool-cases, inl, inr,
}
use arda_wed_gateway.Base.Text.{Text}
use arda_wed_gateway.Base.Text.Space.{is_blank}
use arda_wed_gateway.Gateway.Event.{TerminalEvent}
use arda_wed_gateway.Gateway.Hub.{Client, Hub, find, update, shut, is_registered, send_capacity}
use arda_wed_gateway.Gateway.Hub
use arda_wed_gateway.Gateway.Hub.Registry
use arda_wed_gateway.Gateway.Hub.Delivery.{broadcast-find, deliver, map_client}
use arda_wed_gateway.Gateway.Metrics.{Metrics}
use arda_wed_gateway.Gateway.Manager.{Clock, Manager, status, ensure_session, ensure_from}
use arda_wed_gateway.Gateway.Manager.Commands.{build_status_event}
use arda_wed_gateway.Gateway.Manager.Invariant.{IsValid}
use arda_wed_gateway.Gateway.Manager.Keeps.{status-IsValid}
use arda_wed_gateway.Gateway.Manager.History.{Call, Charset, run, run_keeps}
use arda_wed_gateway.Http.Terminal.{
  UpgradeRequest, upgraded, asks_upgrade, attached, attach, take_over, open_terminal,
  close_terminal, Others, nobody, join_hub, tell,
}

-- The events of a list are broadcast to one client, one after the other.
pub deliver_all : List TerminalEvent → Client → Client
deliver_all [] c = c
deliver_all (e ∷ es) c = deliver_all es (deliver e c)

-- What other goroutines do keeps the manager in order, and reaches the client as these broadcasts.
pub Tells : ℕ → List TerminalEvent → Manager → Manager → Type 0
Tells i es m n =
    IsValid n × (find i n.hub.clients ≡ map_client (deliver_all es) (find i m.hub.clients))

pub tell-Tells :
    (i : ℕ) (e : TerminalEvent) (m : Manager) → IsValid m → Tells i (e ∷ []) m (tell e m)
unfolding Tells deliver_all tell
tell-Tells i e m v =
    let (valid, each) = broadcast-find e m.metrics m.hub v.hub_ok in
    (record { session_ok = v.session_ok; hub_ok = valid }, each i)

-- A registered client with these events in its channel.
abbrev pub holding : ℕ → List TerminalEvent → Client
holding i es = record { id = i; registered = true; send = es; closed = false }

deliver_all-holding :
    (i : ℕ) (es waits : List TerminalEvent)
    → length waits + length es ≤ send_capacity
    → deliver_all es (holding i waits) ≡ holding i (waits ++ es)
unfolding deliver_all deliver
deliver_all-holding i [] waits h = rw (append-nil waits) refl
deliver_all-holding i (e ∷ es) waits h =
    let room : ltb (length waits) send_capacity ≡ true = ground arith in
    rw room (
      deliver_all-holding i es (waits ++ (e ∷ [])) (omega (arith, length-append waits (e ∷ [])))
      ∙ ap (holding i) (append_assoc waits (e ∷ []) es))

join_hub-holding :
    (m : Manager)
    → IsValid m
    → IsValid (join_hub m).0
      × (find m.hub.next_id (join_hub m).0.hub.clients ≡ some (holding m.hub.next_id []))
unfolding join_hub
join_hub-holding m v = (
  record { session_ok = v.session_ok; hub_ok = Registry.add-IsValid m.metrics m.hub v.hub_ok },
  unfold Hub.add find in ground arith,
)

status_hub : (clock : Clock) (m : Manager) → (build_status_event clock m).0.hub ≡ m.hub
unfolding build_status_event status ensure_session ensure_from
status_hub clock m = ground arith

status_keeps : (clock : Clock) (m : Manager) → IsValid m → IsValid (build_status_event clock m).0
unfolding build_status_event
status_keeps clock m v = status-IsValid clock m v

pub join_hub-IsValid : (m : Manager) → IsValid m → IsValid (join_hub m).0
join_hub-IsValid m v = (join_hub-holding m v).0

-- The manager behind BuildStatusEvent, and its event.
pub greeting : Others → Clock → Manager → Manager × TerminalEvent
greeting others clock m = build_status_event clock (others.behind_add (join_hub m).0)

pub greeting-IsValid :
    (others : Others) (clock : Clock) (m : Manager)
    → IsValid (others.behind_add (join_hub m).0)
    → IsValid (greeting others clock m).0
unfolding greeting
greeting-IsValid others clock m v = status_keeps clock _ v

pub Tells-IsValid : (i : ℕ) (es : List TerminalEvent) (m n : Manager) → Tells i es m n → IsValid n
unfolding Tells
Tells-IsValid i es m n t = t.0

pub silent-Tells : (i : ℕ) (m : Manager) → IsValid m → Tells i [] m m
unfolding Tells deliver_all
silent-Tells i m v = (v, map_client-same (find i m.hub.clients))
  where
    map_client-same : (o : Option Client) → o ≡ map_client (λ c. c) o
    map_client-same none = refl
    map_client-same (some c) = refl

pub attach-IsValid : (clock : Clock) (m : Manager) → IsValid m → IsValid (attach nobody clock m).0
unfolding attach Tells
attach-IsValid clock m v =
    let w = status_keeps clock (join_hub m).0 (join_hub-holding m v).0 in
    (tell-Tells m.hub.next_id (build_status_event clock (join_hub m).0).1 _ w).0

Tells-holding :
    (i : ℕ) (es waits : List TerminalEvent) (m n : Manager)
    → length waits + length es ≤ send_capacity
    → Tells i es m n
    → find i m.hub.clients ≡ some (holding i waits)
    → find i n.hub.clients ≡ some (holding i (waits ++ es))
unfolding Tells
Tells-holding i es waits m n room t h =
    t.1 ∙ ap (map_client (deliver_all es)) h ∙ ap some (deliver_all-holding i es waits room)

-- The client once the handler broadcast the status, where others broadcast before.
attach-holding :
    (others : Others) (es fs : List TerminalEvent) (clock : Clock) (m : Manager)
    → IsValid m
    → length es + length fs < send_capacity
    → let i = m.hub.next_id in
      let (m1, e) = greeting others clock m in
      Tells i es (join_hub m).0 (others.behind_add (join_hub m).0)
      → Tells i fs m1 (others.behind_status m1)
      → IsValid (attach others clock m).0
        × (find i (attach others clock m).0.hub.clients ≡ some (holding i (es ++ (fs ++ (e ∷ [])))))
attach-holding others es fs clock m v room t u =
    let i = m.hub.next_id in
    let m1 = (greeting others clock m).0 in
    let e = (greeting others clock m).1 in
    let last : Tells i (e ∷ []) (others.behind_status m1) (tell e (others.behind_status m1)) =
      tell-Tells i e _ (Tells-IsValid _ _ _ _ u) in
    let first : find i m1.hub.clients ≡ some (holding i es) =
      unfold greeting in
      (ap (λ (h : Hub). find i h.clients) (status_hub clock (others.behind_add (join_hub m).0))
        ∙ Tells-holding i es [] _ _ (omega arith) t (join_hub-holding m v).1) in
    let then_more : find i (others.behind_status m1).hub.clients ≡ some (holding i (es ++ fs)) =
      Tells-holding i fs es _ _ (omega arith) u first in
    let all : find i (tell e (others.behind_status m1)).hub.clients
        ≡ some (holding i ((es ++ fs) ++ (e ∷ []))) =
      Tells-holding i (e ∷ []) (es ++ fs) _ _ (omega (arith, length-append es fs)) last then_more in
    unfold attach greeting in
    (Tells-IsValid _ _ _ _ last, all ∙ ap (λ l. some (holding i l)) (append_assoc es fs (e ∷ [])))

remove_unregisters :
    (i : ℕ) (m : Metrics) (h : Hub) → is_registered (find i (Hub.remove i m h).1.clients) ≡ false
unfolding Hub.remove
remove_unregisters i m h = elim (Bool-cases (is_registered (find i h.clients))) [
  | inl e ↦ rw e (go h.clients)
  | inr e ↦ rw e e
]
  where
    go : (cs : List Client) → is_registered (find i (update i shut cs)) ≡ false
    go [] = refl
    go (c ∷ cs) = ground (arith, go cs)

-- On a manager in order, a request that asks for the upgrade and brings a key, and whose connection is
-- taken over, becomes a registered client. Where other goroutines, between the handler's calls, reach
-- the client as fewer than 32 broadcasts, of which its pump has taken none, and keep the manager in
-- order, its channel holds their events in order and the event of the session's status last, which is
-- thus alone there if nobody broadcasts in between. Whatever calls follow on the manager until the read
-- loop ends, the handler then leaves the client unregistered, and the manager is in order before and
-- after.
pub client_life :
    (others : Others) (es fs : List TerminalEvent) (lower : Text → Text) (id : Text)
    (req : UpgradeRequest) (clock : Clock) (m : Manager) (cs : Charset) (l : List (Clock × Call))
    → IsValid m
    → asks_upgrade lower req ≡ true
    → is_blank req.key ≡ false
    → length es + length fs < send_capacity
    → Tells m.hub.next_id es (join_hub m).0 (others.behind_add (join_hub m).0)
    → Tells m.hub.next_id fs
        (greeting others clock m).0
        (others.behind_status (greeting others clock m).0)
    → let i = m.hub.next_id in
      let e = (greeting others clock m).1 in
      let (opened, shake) = open_terminal others lower id req upgraded clock m in
      let closed = close_terminal i (run cs l opened) in
      (shake ≡ attached i)
      × (find i opened.hub.clients ≡ some (holding i (es ++ (fs ++ (e ∷ [])))))
      × IsValid opened
      × IsValid closed
      × (is_registered (find i closed.hub.clients) ≡ false)
unfolding take_over close_terminal join_hub
client_life others es fs lower id req clock m cs l v a k room t u =
    let eq : open_terminal others lower id req upgraded clock m
        ≡ ((attach others clock m).0, attached (attach others clock m).1) =
      unfold open_terminal in rw (a, k) refl in
    let (valid, held) = attach-holding others es fs clock m v room t u in
    let after : IsValid (run cs l (attach others clock m).0) = run_keeps cs l _ valid in
    let i = m.hub.next_id in
    rw eq (
      unfold attach Hub.add in refl,
      held,
      valid,
      record { session_ok = after.session_ok; hub_ok = Registry.remove-IsValid i _ _ after.hub_ok },
      remove_unregisters i _ _,
    )
