-- ===== src/App/Contract.antt =====
-- api/openapi/gateway.v0.yaml: the responses that the API description promises, endpoint by endpoint,
-- and the answers of the handlers against them.
use arda_wed_gateway.Base.{
  ℕ, ◌≡◌, Bool, true, false, not, ◌&&◌, ◌||◌, Option, none, some, List, [], ◌∷◌, ◌==◌, leb,
}
use arda_wed_gateway.Base.Text.{Text, codes, text_eq}
use arda_wed_gateway.Http.Response.{Payload, Body, success, error}
use arda_wed_gateway.Http.Encoded.{
  Kind, string, integer, boolean, strings, string_map, integers, Properties, properties_of,
}
use arda_wed_gateway.State.{is_nil}
use arda_wed_gateway.App.{
  Request, get_health, get_session_status, get_suggestions_latest, post_suggestions_cancel,
  post_session_disconnect, get_metrics, get_state_snapshot, post_session_connect,
  post_commands_enqueue, get_terminal_websocket, Answer, json, page, gave_up, opened,
}

-- The schemas of the payloads under `data`.
pub data Schema : Type 0 where
  health_payload session_status_payload enqueue_payload state_snapshot_or_empty : Schema
  suggestion_latest suggestion_cancel : Schema

-- What an endpoint may answer: with this schema for 200 and these statuses for errors, any of them
-- where the description has a default; with an upgrade; or a page that the description leaves out.
pub data Contract : Type 0 where
  responds : Schema → Option (List ℕ) → Contract
  upgrades outside : Contract

unfoldable pub contract_of {κ} : {M : Type κ} → Request M → Contract
contract_of get_health = responds health_payload (some [])
contract_of get_session_status = responds session_status_payload (some [])
contract_of get_suggestions_latest = responds suggestion_latest (some [])
contract_of post_suggestions_cancel = responds suggestion_cancel (some [])
contract_of post_session_disconnect = responds session_status_payload (some (409 ∷ 500 ∷ []))
contract_of get_metrics = outside
contract_of (get_state_snapshot now) = responds state_snapshot_or_empty (some (500 ∷ []))
contract_of (post_session_connect body dialed) =
    responds session_status_payload (some (400 ∷ 409 ∷ 502 ∷ 500 ∷ []))
contract_of (post_commands_enqueue body) = responds enqueue_payload none
contract_of (get_terminal_websocket req outcome) = upgrades

abbrev pub one_of : Text → List Text → Bool
one_of t [] = false
one_of t (u ∷ us) = text_eq t u || one_of t us

abbrev status_in : ℕ → List ℕ → Bool
status_in n [] = false
status_in n (k ∷ ks) = n == k || status_in n ks

-- What a schema says of a property: its name, the kind of its value, and whether it is required.
-- Formats of strings are left aside.
abbrev pub Description : Type 0
Description = List (Text × (Kind × Bool))

unfoldable pub described : Schema → Description
described health_payload =
    (codes "status", (string, true))
    ∷ (codes "version", (string, true))
    ∷ (codes "commit", (string, true))
    ∷ []
described session_status_payload =
    (codes "session_id", (string, true))
    ∷ (codes "connected", (boolean, true))
    ∷ (codes "queue_depth", (integer, true))
    ∷ (codes "queue_max", (integer, true))
    ∷ (codes "last_activity_at", (string, false))
    ∷ []
described enqueue_payload =
    (codes "accepted", (boolean, true))
    ∷ (codes "queue_depth", (integer, true))
    ∷ (codes "queue_max", (integer, true))
    ∷ []
described suggestion_latest =
    (codes "in_progress", (boolean, true))
    ∷ (codes "last_error", (string, false))
    ∷ (codes "last_error_at", (string, false))
    ∷ (codes "commands", (strings, false))
    ∷ (codes "reason", (string, false))
    ∷ (codes "expected_outcome", (string, false))
    ∷ (codes "generated_at", (string, false))
    ∷ []
described suggestion_cancel = (codes "canceled", (boolean, true)) ∷ []
described state_snapshot_or_empty =
    (codes "location", (string, false))
    ∷ (
      codes "prompt",
      (
        integers (
            codes "hp_current"
            ∷ codes "hp_max"
            ∷ codes "ma_current"
            ∷ codes "ma_max"
            ∷ codes "mv_current"
            ∷ codes "mv_max"
            ∷ codes "exp"
            ∷ []),
        false,
      ),
    )
    ∷ (codes "status_tags", (strings, false))
    ∷ (codes "equipment", (string_map, false))
    ∷ (codes "updated_at", (string, false))
    ∷ []

abbrev texts_eq : List Text → List Text → Bool
texts_eq [] [] = true
texts_eq (t ∷ ts) (u ∷ us) = text_eq t u && texts_eq ts us
texts_eq ts us = false

abbrev kind_eq : Kind → Kind → Bool
kind_eq string string = true
kind_eq integer integer = true
kind_eq boolean boolean = true
kind_eq strings strings = true
kind_eq string_map string_map = true
kind_eq (integers a) (integers b) = texts_eq a b
kind_eq a b = false

-- The description has the property, with this kind.
abbrev pub is_described : Description → Text → Kind → Bool
is_described [] key kind = false
is_described ((known, (k, required)) ∷ ds) key kind =
    (text_eq key known && kind_eq kind k) || is_described ds key kind

abbrev pub all_described : Description → Properties → Bool
all_described ds [] = true
all_described ds ((key, kind) ∷ ps) = is_described ds key kind && all_described ds ps

abbrev pub has_key : Text → Properties → Bool
has_key key [] = false
has_key key ((k, kind) ∷ ps) = text_eq key k || has_key key ps

abbrev pub has_required : Description → Properties → Bool
has_required [] ps = true
has_required ((key, (kind, true)) ∷ ds) ps = has_key key ps && has_required ds ps
has_required ((key, (kind, false)) ∷ ds) ps = has_required ds ps

-- Every property is described, and every required one is there.
unfoldable pub fits : Description → Properties → Bool
fits ds ps = all_described ds ps && has_required ds ps

-- oneOf with two alternatives.
abbrev pub exactly_one : Bool → Bool → Bool
exactly_one true b = not b
exactly_one false b = b

-- The state is one of StateSnapshotPayload and EmptyObject.
unfoldable pub has_schema : Schema → Payload → Bool
unfolding fits described properties_of
has_schema state_snapshot_or_empty p =
    exactly_one (fits (described state_snapshot_or_empty) (properties_of p))
      (fits [] (properties_of p))
has_schema s p = fits (described s) (properties_of p)

-- The enum of ErrorBody.
abbrev pub error_codes : List Text
error_codes =
    codes "INVALID_REQUEST"
    ∷ codes "SESSION_NOT_CONNECTED"
    ∷ codes "SESSION_ALREADY_CONNECTED"
    ∷ codes "QUEUE_FULL"
    ∷ codes "UPSTREAM_UNAVAILABLE"
    ∷ codes "INTERNAL_ERROR"
    ∷ []

abbrev listed : Option (List ℕ) → ℕ → Bool
listed none n = true
listed (some l) n = status_in n l

-- The status of an error.
abbrev pub allows : Option (List ℕ) → ℕ → Bool
allows errors n = leb 400 n && listed errors n

-- A reply whose status, and whose code if it is an error, the description has.
unfoldable pub is_documented : Option (List ℕ) → ℕ → Body → Bool
is_documented errors n (success payload) = n == 200
is_documented errors n (error e) = allows errors n && one_of e.code error_codes

-- The payload of a success has its schema.
unfoldable pub body_fits : Schema → Body → Bool
unfolding has_schema
body_fits schema (success payload) = has_schema schema payload
body_fits schema (error e) = true

-- An error under the default response.
unfoldable pub is_error : ℕ → Body → Bool
is_error n (success payload) = false
is_error n (error e) = leb 400 n && one_of e.code error_codes

-- A success with an object without properties.
unfoldable pub is_empty_object : Body → Bool
unfolding properties_of
is_empty_object (success payload) = is_nil (properties_of payload)
is_empty_object (error e) = false

-- A payload is expected to have its schema, unless it is a state without properties: that one fits both
-- alternatives, of which just one may fit.
abbrev pub is_expected : Schema → Body → Bool
is_expected state_snapshot_or_empty body = not (is_empty_object body)
is_expected schema body = true

-- An answer to a request of this identity that keeps a contract.
abbrev pub Conforms : Text → Contract → Answer → Type 0
Conforms id (responds schema errors) (json r) =
    (is_documented errors r.status r.body ≡ true)
    × (body_fits schema r.body ≡ is_expected schema r.body)
    × (r.meta.request_id ≡ id)
Conforms id (responds schema errors) answer = ⊥
Conforms id upgrades (json r) = (is_error r.status r.body ≡ true) × (r.meta.request_id ≡ id)
Conforms id upgrades gave_up = Unit {0}
Conforms id upgrades (opened i) = Unit {0}
Conforms id upgrades (page x) = ⊥
Conforms id outside (page (n, t)) = n ≡ 200
Conforms id outside answer = ⊥
