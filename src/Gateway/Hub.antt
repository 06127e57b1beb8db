-- ===== src/Gateway/Hub.antt =====
-- backend/internal/gateway/hub.go: the web clients, each with a channel of 32 events.
pub mod Pumped
pub mod Registry
pub mod Delivery
pub mod Counters
pub mod Races
use arda_wed_gateway.Base.{
  ℕ, suc, ◌+◌, ◌≤◌, Bool, true, false, Option, none, some, List, [], ◌∷◌, ◌++◌, ltb, ◌==◌, length,
  if◌then◌else◌,
}
use arda_wed_gateway.Gateway.Event.{TerminalEvent}
use arda_wed_gateway.Gateway.Metrics.{Metrics, inc_ws_connections, dec_ws_connections}

-- The capacity of a client's channel.
abbrev pub send_capacity : ℕ
send_capacity = 32

-- `id` stands for the pointer; `registered` says whether it is a key of the map `clients`, and
-- `closed` whether the channel `send` and the connection are closed.
pub record Client : Type 0 where
  pub id : ℕ
  pub registered : Bool
  pub send : List TerminalEvent
  pub closed : Bool

-- All clients that were ever added. `crashed` is set by a send on a closed channel, which panics.
pub record Hub : Type 0 where
  pub clients : List Client
  pub next_id : ℕ
  pub crashed : Bool

abbrev pub new_hub : Hub
new_hub = record { clients = []; next_id = 0; crashed = false }

unfoldable pub add : Metrics → Hub → Metrics × Hub × ℕ
unfolding inc_ws_connections
add m h = (
  inc_ws_connections m,
  record h {
    clients = record { id = h.next_id; registered = true; send = []; closed = false } ∷ h.clients;
    next_id = suc h.next_id;
  },
  h.next_id,
)

-- The client behind a pointer, and a change of it.
unfoldable pub find : ℕ → List Client → Option Client
find i [] = none
find i (c ∷ cs) = if c.id == i then some c else find i cs

unfoldable pub update : ℕ → (Client → Client) → List Client → List Client
update i f [] = []
update i f (c ∷ cs) = if c.id == i then f c ∷ cs else c ∷ update i f cs

-- `delete(h.clients, c)`, `close(c.send)` and `c.conn.Close()`.
abbrev pub shut : Client → Client
shut c = record c { registered = false; closed = true }

abbrev pub is_registered : Option Client → Bool
is_registered none = false
is_registered (some c) = c.registered

unfoldable pub remove : ℕ → Metrics → Hub → Metrics × Hub
unfolding find update dec_ws_connections
remove i m h =
    if is_registered (find i h.clients)
    then (dec_ws_connections m, record h { clients = update i shut h.clients })
    else (m, h)

-- The keys of `h.clients`, copied under the lock.
unfoldable pub targets : List Client → List ℕ
targets [] = []
targets (c ∷ cs) = if c.registered then c.id ∷ targets cs else targets cs

-- `select { case c.send <- event: default: }` on an open channel with room, a full one, a closed one.
pub data Offer : Type 0 where
  sent full panics : Offer

abbrev pub offer : Option Client → Offer
offer none = panics
offer (some c) =
    if c.closed then panics else (if ltb (length c.send) send_capacity then sent else full)

abbrev pub push_event : TerminalEvent → Client → Client
push_event e c = record c { send = c.send ++ (e ∷ []) }

unfoldable pub broadcast_one : TerminalEvent → ℕ → Metrics × Hub → Metrics × Hub
unfolding remove
broadcast_one e i (m, h) = elim (offer (find i h.clients)) [
  | sent ↦ (m, record h { clients = update i (push_event e) h.clients })
  | full ↦ remove i m h
  | panics ↦ (m, record h { crashed = true })
]

-- The loop of Broadcast over the copied keys.
unfoldable pub broadcast_each : TerminalEvent → List ℕ → Metrics × Hub → Metrics × Hub
unfolding broadcast_one
broadcast_each e [] s = s
broadcast_each e (i ∷ is) s = broadcast_each e is (broadcast_one e i s)

unfoldable pub broadcast : TerminalEvent → Metrics → Hub → Metrics × Hub
unfolding broadcast_each targets
broadcast e m h = broadcast_each e (targets h.clients) (m, h)

-- writePump takes the next event off the channel; `none` on an empty channel, which ends the pump if
-- the channel is closed and else makes it wait.
unfoldable pub next_event : Client → Option (TerminalEvent × Client)
next_event c = elim c.send [ [] ↦ none | e ∷ es ↦ some (e, record c { send = es }) ]

abbrev pub taken_from : Option (TerminalEvent × Client) → Client → Client
taken_from none c = c
taken_from (some (e, rest)) c = rest

-- The hub once the pump of a client took its next event.
unfoldable pub take_event : ℕ → Hub → Hub
unfolding next_event update
take_event i h = record h { clients = update i (λ c. taken_from (next_event c) c) h.clients }
