-- ===== src/Http/Terminal.antt =====
-- ws.go: the handler of a web client's WebSocket. `lower` is strings.ToLower, `accept_key` is
-- WebsocketAcceptKey; the header's values and the outcome of taking over the connection are arguments.
use arda_wed_gateway.Base.{ℕ, Bool, false, not, ◌&&◌, ◌||◌, List, [], ◌∷◌, ◌++◌, if◌then◌else◌}
use arda_wed_gateway.Base.Text.{Text, codes, text_eq}
use arda_wed_gateway.Base.Text.Search.{split_on}
use arda_wed_gateway.Base.Text.Space.{trim_space, is_blank}
use arda_wed_gateway.Gateway.Hub.{Client, Hub, find, update, is_registered}
use arda_wed_gateway.Gateway.Hub
use arda_wed_gateway.Gateway.Event.{TerminalEvent}
use arda_wed_gateway.Gateway.Manager.{Clock, Manager}
use arda_wed_gateway.Gateway.Manager.Commands.{build_status_event}
use arda_wed_gateway.Http.Response.{Reply}
use arda_wed_gateway.Http.Session.{invalid_request, internal_error}

unfoldable pub has_part : List Text → Text → Bool
has_part [] want = false
has_part (p ∷ ps) want = text_eq (trim_space p) want || has_part ps want

-- `value` is header.Get(key).
unfoldable pub header_contains_token : (Text → Text) → Text → Text → Bool
unfolding has_part split_on
header_contains_token lower value want = has_part (split_on b',' (lower value)) want

unfoldable pub upgrade_response : (Text → Text) → Text → Text
upgrade_response accept_key key =
    codes "HTTP/1.1 101 Switching Protocols"
    ++ (13
        ∷ 10
        ∷ (codes "Upgrade: websocket"
            ++ (13
                ∷ 10
                ∷ (codes "Connection: Upgrade"
                    ++ (13
                        ∷ 10
                        ∷ (codes "Sec-WebSocket-Accept: "
                            ++ (accept_key key ++ (13 ∷ 10 ∷ 13 ∷ 10 ∷ []))))))))

-- The headers Connection, Upgrade and Sec-WebSocket-Key.
pub record UpgradeRequest : Type 0 where
  pub connection : Text
  pub upgrade : Text
  pub key : Text

-- How taking over the connection ends: the writer cannot, Hijack fails, the response is not written,
-- or it is.
pub data Hijacking : Type 0 where
  unsupported hijack_fails upgrade_fails upgraded : Hijacking

-- What the handler comes to, before its read loop: an HTTP reply, a connection given up, a client.
pub data Handshake : Type 0 where
  answered : Reply → Handshake
  aborted : Handshake
  attached : ℕ → Handshake

-- What other goroutines do to the manager between the handler's calls on it, each of which takes locks
-- of its own: behind Hub().Add, and behind BuildStatusEvent.
pub record Others : Type 0 where
  pub behind_add : Manager → Manager
  pub behind_status : Manager → Manager

abbrev pub nobody : Others
nobody = record { behind_add = λ m. m; behind_status = λ m. m }

-- Hub().Add
unfoldable pub join_hub : Manager → Manager × ℕ
join_hub m =
    let (metrics, hub, i) = Hub.add m.metrics m.hub in
    (record m { metrics = metrics; hub = hub }, i)

-- Hub().Broadcast
unfoldable pub tell : TerminalEvent → Manager → Manager
tell e m =
    let (metrics, hub) = Hub.broadcast e m.metrics m.hub in
    record m { metrics = metrics; hub = hub }

-- Hub().Add, BuildStatusEvent and Hub().Broadcast, among others.
unfoldable pub attach : Others → Clock → Manager → Manager × ℕ
unfolding join_hub tell
attach others clock m =
    let (joined, i) = join_hub m in
    let (m1, e) = build_status_event clock (others.behind_add joined) in
    (tell e (others.behind_status m1), i)

unfoldable pub take_over : Others → Text → Hijacking → Clock → Manager → Manager × Handshake
unfolding attach internal_error
take_over others id unsupported clock m =
    (m, answered (internal_error id clock.stamp (codes "websocket upgrade unsupported")))
take_over others id hijack_fails clock m = (m, aborted)
take_over others id upgrade_fails clock m = (m, aborted)
take_over others id upgraded clock m = let (m1, i) = attach others clock m in (m1, attached i)

-- Whether the request asks for the upgrade.
unfoldable pub asks_upgrade : (Text → Text) → UpgradeRequest → Bool
unfolding header_contains_token
asks_upgrade lower req =
    header_contains_token lower req.connection (codes "upgrade")
    && header_contains_token lower req.upgrade (codes "websocket")

-- handleTerminalWS up to its read loop.
unfoldable pub open_terminal :
    Others
    → (Text → Text)
    → Text
    → UpgradeRequest
    → Hijacking
    → Clock
    → Manager
    → Manager × Handshake
unfolding asks_upgrade take_over
open_terminal others lower id req outcome clock m =
    if not (asks_upgrade lower req)
    then (m, answered (invalid_request id clock.stamp (codes "websocket upgrade required")))
    else (if is_blank req.key
        then (m, answered (invalid_request id clock.stamp (codes "missing Sec-WebSocket-Key")))
        else take_over others id outcome clock m)

-- The deferred Hub().Remove, once the read loop returned.
unfoldable pub close_terminal : ℕ → Manager → Manager
close_terminal i m =
    let (metrics, hub) = Hub.remove i m.metrics m.hub in record m { metrics = metrics; hub = hub }
