-- ===== src/App/Routes.antt =====
-- router.go: the patterns that NewRouter registers with net/http's ServeMux, which is a parameter.
use arda_wed_gateway.Base.{
  ◌≡◌, refl, ap, Bool, true, false, ◌||◌, Option, none, some, List, [], ◌∷◌, ◌++◌,
}
use arda_wed_gateway.Base.Map.{Map, lookup}
use arda_wed_gateway.Base.Map.Sorted.{keys}
use arda_wed_gateway.Base.Text.{Text, codes, text_eq}
use arda_wed_gateway.App.{
  Request, get_health, get_session_status, get_suggestions_latest, post_suggestions_cancel,
  post_session_disconnect, get_metrics, get_state_snapshot, post_session_connect,
  post_commands_enqueue, get_terminal_websocket,
}

-- The handlers of the Router.
pub data Route : Type 0 where
  handle_health handle_session_status handle_state_snapshot handle_suggestions_latest : Route
  handle_suggestions_cancel handle_session_connect handle_session_disconnect : Route
  handle_enqueue_command handle_terminal_ws handle_metrics : Route

-- The patterns that NewRouter registers.
abbrev pub routes : Map Route
routes =
    (codes "GET /api/v0/health", handle_health)
    ∷ (codes "GET /api/v0/session/status", handle_session_status)
    ∷ (codes "GET /api/v0/state/snapshot", handle_state_snapshot)
    ∷ (codes "GET /api/v0/suggestions/latest", handle_suggestions_latest)
    ∷ (codes "POST /api/v0/suggestions/cancel", handle_suggestions_cancel)
    ∷ (codes "POST /api/v0/session/connect", handle_session_connect)
    ∷ (codes "POST /api/v0/session/disconnect", handle_session_disconnect)
    ∷ (codes "POST /api/v0/commands/enqueue", handle_enqueue_command)
    ∷ (codes "GET /api/v0/ws/terminal", handle_terminal_ws)
    ∷ (codes "GET /metrics", handle_metrics)
    ∷ []

-- The handler for the pattern that the mux chooses among these, for a method and a path; `none` where
-- the mux answers itself.
abbrev routed : Option Text → Option Route
routed none = none
routed (some pattern) = lookup pattern routes

unfoldable pub dispatch : (List Text → Text → Text → Option Text) → Text → Text → Option Route
unfolding lookup
dispatch mux method path = routed (mux (keys routes) method path)

abbrev one_of : Text → List Text → Bool
one_of t [] = false
one_of t (u ∷ us) = text_eq u t || one_of t us

abbrev pattern_for : Text → Text → Text
pattern_for method path = method ++ (codes " " ++ path)

-- The mux chooses the pattern that is the method and the path of the request, if there is one.
IsMux : (List Text → Text → Text → Option Text) → Type 0
IsMux mux =
    (patterns : List Text) (method path : Text)
    → one_of (pattern_for method path) patterns ≡ true
    → mux patterns method path ≡ some (pattern_for method path)

-- The method and the path that the API description has for a request, and the handler that the
-- model gives it to.
abbrev get : Text
get = codes "GET"

abbrev post : Text
post = codes "POST"

operation {κ} : {M : Type κ} → Request M → Text × Text
operation get_health = (get, codes "/api/v0/health")
operation get_session_status = (get, codes "/api/v0/session/status")
operation (get_state_snapshot now) = (get, codes "/api/v0/state/snapshot")
operation get_suggestions_latest = (get, codes "/api/v0/suggestions/latest")
operation post_suggestions_cancel = (post, codes "/api/v0/suggestions/cancel")
operation (post_session_connect body dialed) = (post, codes "/api/v0/session/connect")
operation post_session_disconnect = (post, codes "/api/v0/session/disconnect")
operation (post_commands_enqueue body) = (post, codes "/api/v0/commands/enqueue")
operation (get_terminal_websocket req outcome) = (get, codes "/api/v0/ws/terminal")
operation get_metrics = (get, codes "/metrics")

route_of {κ} : {M : Type κ} → Request M → Route
route_of get_health = handle_health
route_of get_session_status = handle_session_status
route_of (get_state_snapshot now) = handle_state_snapshot
route_of get_suggestions_latest = handle_suggestions_latest
route_of post_suggestions_cancel = handle_suggestions_cancel
route_of (post_session_connect body dialed) = handle_session_connect
route_of post_session_disconnect = handle_session_disconnect
route_of (post_commands_enqueue body) = handle_enqueue_command
route_of (get_terminal_websocket req outcome) = handle_terminal_ws
route_of get_metrics = handle_metrics

-- Every operation of the API description, and the metrics page, gets to its handler.
dispatch-operation {κ} :
    {M : Type κ} (mux : List Text → Text → Text → Option Text) (request : Request M)
    → IsMux mux
    → dispatch mux (operation request).0 (operation request).1 ≡ some (route_of request)
unfolding dispatch IsMux operation route_of text_eq
dispatch-operation mux get_health h = ap routed (h (keys routes) _ _ refl)
dispatch-operation mux get_session_status h = ap routed (h (keys routes) _ _ refl)
dispatch-operation mux (get_state_snapshot now) h = ap routed (h (keys routes) _ _ refl)
dispatch-operation mux get_suggestions_latest h = ap routed (h (keys routes) _ _ refl)
dispatch-operation mux post_suggestions_cancel h = ap routed (h (keys routes) _ _ refl)
dispatch-operation mux (post_session_connect body dialed) h = ap routed (h (keys routes) _ _ refl)
dispatch-operation mux post_session_disconnect h = ap routed (h (keys routes) _ _ refl)
dispatch-operation mux (post_commands_enqueue body) h = ap routed (h (keys routes) _ _ refl)
dispatch-operation mux (get_terminal_websocket req outcome) h = ap routed (h (keys routes) _ _ refl)
dispatch-operation mux get_metrics h = ap routed (h (keys routes) _ _ refl)
