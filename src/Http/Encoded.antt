-- ===== src/Http/Encoded.antt =====
-- health.go, session.go, parser.go: the properties that encoding/json writes of the payloads, by the
-- tags of their structs. A property is its name and the kind of its value.
use arda_wed_gateway.Base.{Bool, true, false, Option, none, some, List, [], ◌∷◌, ◌++◌}
use arda_wed_gateway.Base.Text.{Text, codes, text_eq}
use arda_wed_gateway.State.{PromptTuple, Snapshot, is_nil}
use arda_wed_gateway.Http.Response.{
  Value, text, texts, number, flag, Fields, SessionStatusPayload, EnqueuePayload, HealthPayload,
  Payload, session_status, enqueued, health, snapshot, fields,
}

-- The kinds of values: an object is one of strings under any names, or of integers under these.
pub data Kind : Type 0 where
  string integer boolean strings string_map : Kind
  integers : List Text → Kind

abbrev pub Properties : Type 0
Properties = List (Text × Kind)

-- A property with `omitempty`, left out where the value is empty.
abbrev pub omit_empty : Bool → Text → Kind → Properties
omit_empty true key kind = []
omit_empty false key kind = (key, kind) ∷ []

unfoldable pub session_status_properties : SessionStatusPayload → Properties
session_status_properties p =
    (codes "session_id", string)
    ∷ (codes "connected", boolean)
    ∷ (codes "queue_depth", integer)
    ∷ (codes "queue_max", integer)
    ∷ omit_empty (text_eq p.last_activity_at []) (codes "last_activity_at") string

unfoldable pub enqueue_properties : EnqueuePayload → Properties
enqueue_properties p =
    (codes "accepted", boolean) ∷ (codes "queue_depth", integer) ∷ (codes "queue_max", integer) ∷ []

unfoldable pub health_properties : HealthPayload → Properties
health_properties p =
    (codes "status", string) ∷ (codes "version", string) ∷ (codes "commit", string) ∷ []

-- The tags of PromptTuple; none is left out.
abbrev pub prompt_names : PromptTuple → List Text
prompt_names p =
    codes "hp_current"
    ∷ codes "hp_max"
    ∷ codes "ma_current"
    ∷ codes "ma_max"
    ∷ codes "mv_current"
    ∷ codes "mv_max"
    ∷ codes "exp"
    ∷ []

-- A nil pointer is left out.
abbrev pub prompt_properties : Option PromptTuple → Properties
prompt_properties none = []
prompt_properties (some p) = (codes "prompt", integers (prompt_names p)) ∷ []

-- The session's name has the tag "-".
unfoldable pub snapshot_properties : Snapshot → Properties
snapshot_properties s =
    omit_empty (text_eq s.location []) (codes "location") string
    ++ (prompt_properties s.prompt
        ++ (omit_empty (is_nil s.status_tags) (codes "status_tags") strings
            ++ (omit_empty (is_nil s.equipment) (codes "equipment") string_map
                ++ omit_empty (text_eq s.updated_at []) (codes "updated_at") string)))

abbrev pub kind_of : Value → Kind
kind_of (text t) = string
kind_of (texts l) = strings
kind_of (number n) = integer
kind_of (flag b) = boolean

-- A `map[string]any` leaves nothing out.
abbrev pub fields_properties : Fields → Properties
fields_properties [] = []
fields_properties ((key, v) ∷ fs) = (key, kind_of v) ∷ fields_properties fs

unfoldable pub properties_of : Payload → Properties
unfolding session_status_properties enqueue_properties health_properties snapshot_properties
properties_of (session_status p) = session_status_properties p
properties_of (enqueued p) = enqueue_properties p
properties_of (health p) = health_properties p
properties_of (snapshot s) = snapshot_properties s
properties_of (fields fs) = fields_properties fs
