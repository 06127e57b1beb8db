-- ===== src/Gateway/Event/Json/Described.antt =====
-- The JSON of the events against its reader and against api/openapi/gateway.v0.yaml.
use arda_wed_gateway.Base.{
  ℕ, ◌≡◌, refl, Bool, true, false, not, ◌&&◌, Option, none, some, List, [], ◌∷◌, ◌==◌, ==_iff,
  arith, if◌then◌else◌,
}
use arda_wed_gateway.Base.Map.{Map, lookup}
use arda_wed_gateway.Base.Text.{Text, codes, text_eq}
use arda_wed_gateway.Base.Word.{ℤ}
use arda_wed_gateway.Gateway.Event.{TerminalEvent}
use arda_wed_gateway.Gateway.Event.Json.{
  Scalar, string, number, bool, is_zero, omit_empty, object_of, event_of, string_or_zero,
  bool_or_zero, number_or_zero,
}
use arda_wed_gateway.Gateway.Manager.{Clock, Status, Manager, connected_event}
use arda_wed_gateway.Gateway.Manager.Disconnect.{disconnected_event}
use arda_wed_gateway.Gateway.Manager.Commands.{
  rejected_event, accepted_event, send_failed_event, build_status_event,
}
use arda_wed_gateway.Gateway.Manager.Upstream.{output_event}

-- What stands under the key of a field, `none` for one that was left out.
abbrev kept : Scalar → Option Scalar
kept v = if is_zero v then none else some v

-- The fields of an object, read one by one.
record HasFields (o : Map Scalar) (e : TerminalEvent) : Type 0 where
  pub event : lookup (codes "event") o ≡ some (string e.event)
  pub session_id : lookup (codes "session_id") o ≡ some (string e.session_id)
  pub connected : lookup (codes "connected") o ≡ kept (bool e.connected)
  pub text : lookup (codes "text") o ≡ kept (string e.text)
  pub queue_depth : lookup (codes "queue_depth") o ≡ kept (number e.queue_depth)
  pub queue_max : lookup (codes "queue_max") o ≡ kept (number e.queue_max)
  pub queue_reject_code : lookup (codes "queue_reject_code") o ≡ kept (string e.queue_reject_code)
  pub timestamp : lookup (codes "timestamp") o ≡ some (string e.timestamp)

object_of-HasFields : (e : TerminalEvent) → HasFields (object_of e) e
unfolding object_of omit_empty is_zero lookup text_eq
object_of-HasFields e = record {
  event = refl;
  session_id = refl;
  connected = ground arith;
  text = ground arith;
  queue_depth = ground arith;
  queue_max = ground arith;
  queue_reject_code = ground arith;
  timestamp = ground arith;
}

string_back : (t : Text) → string_or_zero (kept (string t)) ≡ t
unfolding is_zero text_eq
string_back [] = refl
string_back (c ∷ t) = refl

number_back : (n : ℕ) → number_or_zero (kept (number n)) ≡ n
unfolding is_zero
number_back n = ground (arith, ==_iff n 0)

bool_back : (b : Bool) → bool_or_zero (kept (bool b)) ≡ b
unfolding is_zero
bool_back true = refl
bool_back false = refl

-- Leaving the zero values out loses nothing: a reader that takes a missing key for the zero value
-- of its type, as encoding/json does for this struct, finds in the object of an event the event.
pub event_of-object_of : (e : TerminalEvent) → event_of (object_of e) ≡ e
unfolding event_of
event_of-object_of e =
    let f = object_of-HasFields e in
    rw
      (
        f.event,
        f.session_id,
        f.connected,
        f.text,
        f.queue_depth,
        f.queue_max,
        f.queue_reject_code,
        f.timestamp,
        bool_back e.connected,
        string_back e.text,
        number_back e.queue_depth,
        number_back e.queue_max,
        string_back e.queue_reject_code,
      )
      refl

abbrev is_there : Option Scalar → Bool
is_there none = false
is_there (some v) = true

abbrev has_all : List Text → Map Scalar → Bool
has_all [] o = true
has_all (k ∷ ks) o = is_there (lookup k o) && has_all ks o

-- The properties that the description requires of an event besides those that every event needs.
abbrev required : List (Text × List Text)
required =
    (codes "session.status", codes "connected" ∷ codes "queue_depth" ∷ codes "queue_max" ∷ [])
    ∷ (
      codes "session.connected",
      codes "connected" ∷ codes "text" ∷ codes "queue_depth" ∷ codes "queue_max" ∷ [],
    )
    ∷ (
      codes "session.disconnected",
      codes "connected" ∷ codes "text" ∷ codes "queue_depth" ∷ codes "queue_max" ∷ [],
    )
    ∷ (codes "terminal.output", codes "text" ∷ [])
    ∷ (codes "queue.accepted", codes "text" ∷ codes "queue_depth" ∷ codes "queue_max" ∷ [])
    ∷ (
      codes "queue.rejected",
      codes "text" ∷ codes "queue_depth" ∷ codes "queue_max" ∷ codes "queue_reject_code" ∷ [],
    )
    ∷ (codes "queue.send_failed", codes "text" ∷ codes "queue_depth" ∷ codes "queue_max" ∷ [])
    ∷ []

abbrev described_by : Option (List Text) → Map Scalar → Bool
described_by none o = false
described_by (some ks) o = has_all (codes "event" ∷ codes "session_id" ∷ codes "timestamp" ∷ ks) o

-- Whether an object has what the description requires of the event that it names.
unfoldable pub is_described : Map Scalar → Bool
is_described o = described_by (lookup (string_or_zero (lookup (codes "event") o)) required) o

abbrev pub positive : ℕ → Bool
positive n = not (n == 0)

status-described :
    (clock : Clock) (m : Manager)
    → let e = (build_status_event clock m).1 in
      is_described (object_of e) ≡ (e.connected && positive e.queue_depth && positive e.queue_max)
unfolding is_described object_of omit_empty is_zero lookup text_eq build_status_event
status-described clock m = ground arith

-- Which events of the manager have, as JSON, all that the API description requires of them, for every
-- value in them: a status one that is connected, has commands waiting and a positive limit; a report of
-- a connection one that shows commands waiting and a positive limit; a report of a disconnection
-- never, since its JSON has neither `connected` nor `queue_depth`; an output one with a text; an
-- accepted, a rejected or a failed command one with a text, a positive depth and a positive limit.
pub object_of-described :
    (clock : Clock) (m : Manager) (host : Text) (port : ℤ) (st : Status) (reason id text : Text)
    (dropped depth max : ℕ) (stamp : Text)
    → let status = (build_status_event clock m).1 in
      (is_described (object_of status)
        ≡ (status.connected && positive status.queue_depth && positive status.queue_max))
      × (is_described (object_of (connected_event host port st stamp))
          ≡ (positive st.queue_depth && positive st.queue_max))
      × (is_described (object_of (disconnected_event reason st dropped stamp)) ≡ false)
      × (is_described (object_of (output_event id text stamp)) ≡ not (text_eq text []))
      × (is_described (object_of (accepted_event st text depth stamp))
          ≡ (not (text_eq text []) && positive depth && positive st.queue_max))
      × (is_described (object_of (rejected_event st depth max stamp))
          ≡ (positive depth && positive max))
      × (is_described (object_of (send_failed_event id text depth max stamp))
          ≡ (not (text_eq text []) && positive depth && positive max))
unfolding is_described object_of omit_empty is_zero lookup text_eq connected_event
    disconnected_event output_event accepted_event rejected_event send_failed_event
object_of-described clock m host port st reason id text dropped depth max stamp = (
  status-described clock m,
  ground arith,
  ground arith,
  ground arith,
  ground arith,
  ground arith,
  ground arith,
)
