-- ===== src/Http/Response.antt =====
-- response.go: the envelope of every JSON reply. `stamp` is the time that newMeta writes.
use arda_wed_gateway.Base.{ℕ, Bool, List, []}
use arda_wed_gateway.Base.Text.{Text}
use arda_wed_gateway.Base.Word.{ℤ}
use arda_wed_gateway.State.{Snapshot}

-- A value of a `map[string]any`, and such a map with its keys in the order of writing.
pub data Value : Type 0 where
  text : Text → Value
  texts : List Text → Value
  number : ℤ → Value
  flag : Bool → Value

abbrev pub Fields : Type 0
Fields = List (Text × Value)

-- An empty `last_activity_at` is left out of the JSON.
pub record SessionStatusPayload : Type 0 where
  pub session_id : Text
  pub connected : Bool
  pub queue_depth : ℕ
  pub queue_max : ℕ
  pub last_activity_at : Text

pub record EnqueuePayload : Type 0 where
  pub accepted : Bool
  pub queue_depth : ℕ
  pub queue_max : ℕ

pub record HealthPayload : Type 0 where
  pub status : Text
  pub version : Text
  pub commit : Text

-- What the handlers pass as `data`.
pub data Payload : Type 0 where
  session_status : SessionStatusPayload → Payload
  enqueued : EnqueuePayload → Payload
  health : HealthPayload → Payload
  snapshot : Snapshot → Payload
  fields : Fields → Payload

pub record Meta : Type 0 where
  pub request_id : Text
  pub timestamp : Text

pub record ErrorBody : Type 0 where
  pub code : Text
  pub message : Text
  pub details : Fields

pub data Body : Type 0 where
  success : Payload → Body
  error : ErrorBody → Body

-- The status that is sent, and the JSON behind it.
pub record Reply : Type 0 where
  pub status : ℕ
  pub body : Body
  pub meta : Meta

abbrev pub new_meta : Text → Text → Meta
new_meta request_id stamp = record { request_id = request_id; timestamp = stamp }

unfoldable pub write_success : Text → Text → ℕ → Payload → Reply
write_success request_id stamp status payload = record {
  status = status;
  body = success payload;
  meta = new_meta request_id stamp;
}

unfoldable pub write_error : Text → Text → ℕ → Text → Text → Fields → Reply
write_error request_id stamp status code message details = record {
  status = status;
  body = error (record { code = code; message = message; details = details });
  meta = new_meta request_id stamp;
}

-- The code of an error reply, empty for a success.
abbrev pub error_code : Body → Text
error_code (success payload) = []
error_code (error e) = e.code
