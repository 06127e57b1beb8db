-- ===== src/Gateway/Event/Json.antt =====
-- The JSON of an event: what the tags of TerminalEvent (manager.go) make encoding/json write, before it
-- becomes bytes, and what marshalEvent (wsframe.go) then returns. `marshal` is json.Marshal of an object.
pub mod Described
use arda_wed_gateway.Base.{
  ℕ, ◌≡◌, refl, Bool, true, false, not, Option, none, some, List, [], ◌∷◌, ◌++◌, ◌==◌, ==_iff,
  arith, if◌then◌else◌, if_cases, ◌∙◌,
}
use arda_wed_gateway.Base.Map.{Map, lookup}
use arda_wed_gateway.Base.Text.{Text, codes, text_eq, text_eq→eq}
use arda_wed_gateway.Gateway.Event.{TerminalEvent}

pub data Scalar : Type 0 where
  string : Text → Scalar
  number : ℕ → Scalar
  bool : Bool → Scalar

-- `omitempty` leaves the zero value out.
unfoldable pub is_zero : Scalar → Bool
is_zero (string t) = text_eq t []
is_zero (number n) = n == 0
is_zero (bool b) = not b

unfoldable pub omit_empty : Text → Scalar → Map Scalar → Map Scalar
unfolding is_zero
omit_empty key v rest = if is_zero v then rest else (key, v) ∷ rest

-- The object of an event, its fields in the order of the struct.
unfoldable pub object_of : TerminalEvent → Map Scalar
unfolding omit_empty
object_of e =
    (codes "event", string e.event)
    ∷ (codes "session_id", string e.session_id)
    ∷ omit_empty (codes "connected") (bool e.connected) (
        omit_empty (codes "text") (string e.text) (
          omit_empty (codes "queue_depth") (number e.queue_depth) (
            omit_empty (codes "queue_max") (number e.queue_max) (
              omit_empty (codes "queue_reject_code") (string e.queue_reject_code)
                ((codes "timestamp", string e.timestamp) ∷ [])))))

unfoldable pub marshal_event : (Map Scalar → Option (List ℕ)) → TerminalEvent → Option (List ℕ)
unfolding object_of
marshal_event marshal e = marshal (object_of e)

-- What a reader of the object finds under a key, where a missing one reads as the zero value.
abbrev pub string_or_zero : Option Scalar → Text
string_or_zero (some (string t)) = t
string_or_zero o = []

abbrev pub number_or_zero : Option Scalar → ℕ
number_or_zero (some (number n)) = n
number_or_zero o = 0

abbrev pub bool_or_zero : Option Scalar → Bool
bool_or_zero (some (bool b)) = b
bool_or_zero o = false

pub event_of : Map Scalar → TerminalEvent
event_of o = record {
  event = string_or_zero (lookup (codes "event") o);
  session_id = string_or_zero (lookup (codes "session_id") o);
  connected = bool_or_zero (lookup (codes "connected") o);
  text = string_or_zero (lookup (codes "text") o);
  queue_depth = number_or_zero (lookup (codes "queue_depth") o);
  queue_max = number_or_zero (lookup (codes "queue_max") o);
  queue_reject_code = string_or_zero (lookup (codes "queue_reject_code") o);
  timestamp = string_or_zero (lookup (codes "timestamp") o);
}

-- A field that may be left out, read under its key and under another.
pub lookup-omit_other :
    (k key : Text) (v : Scalar) (rest : Map Scalar)
    → text_eq key k ≡ false
    → lookup k (omit_empty key v rest) ≡ lookup k rest
unfolding omit_empty lookup
lookup-omit_other k key v rest h = ground arith

pub lookup-omit_own :
    (key : Text) (v : Scalar) (rest : Map Scalar)
    → text_eq key key ≡ true
    → lookup key rest ≡ none
    → lookup key (omit_empty key v rest) ≡ (if is_zero v then none else some v)
unfolding omit_empty lookup
lookup-omit_own key v rest h q = ground arith
