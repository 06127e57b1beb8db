-- ===== src/Gateway/WsFrame/Pump.antt =====
-- hub.go: writePump, which writes the events of one web client's channel as frames.
use arda_wed_gateway.Base.{ℕ, ◌≡◌, refl, ap, Option, none, some, List, [], ◌∷◌, ◌++◌, All}
use arda_wed_gateway.Gateway.Event.{TerminalEvent}
use arda_wed_gateway.Gateway.WsFrame.{write_text_frame}

-- How the connection takes an event: SetWriteDeadline fails, Write fails, or neither.
pub data PumpOutcome : Type 0 where
  no_deadline no_write done : PumpOutcome

-- One event whose JSON is there or not, and the frames of the events behind it.
unfoldable pub pump_one : Option (List ℕ) → PumpOutcome → List (List ℕ) → List (List ℕ)
pump_one json no_deadline rest = []
pump_one none no_write rest = rest
pump_one none done rest = rest
pump_one (some payload) no_write rest = []
pump_one (some payload) done rest = write_text_frame payload ∷ rest

-- The frames that are written whole, for the events of the channel in order. `marshal` is
-- marshalEvent, `none` where it returns an error.
unfoldable pub write_pump :
    (TerminalEvent → Option (List ℕ)) → List (TerminalEvent × PumpOutcome) → List (List ℕ)
unfolding pump_one
write_pump marshal [] = []
write_pump marshal ((e, outcome) ∷ es) =
    let rest = write_pump marshal es in pump_one (marshal e) outcome rest

-- The frames of all events that have a JSON.
abbrev pub frame_of : Option (List ℕ) → List (List ℕ)
frame_of none = []
frame_of (some payload) = write_text_frame payload ∷ []

pub frames_of :
    (TerminalEvent → Option (List ℕ)) → List (TerminalEvent × PumpOutcome) → List (List ℕ)
frames_of marshal [] = []
frames_of marshal ((e, outcome) ∷ es) = frame_of (marshal e) ++ frames_of marshal es

pump_one-prefix :
    (json : Option (List ℕ)) (outcome : PumpOutcome) (rest all more : List (List ℕ))
    → rest ++ more ≡ all
    → (missing : List (List ℕ)) × (pump_one json outcome rest ++ missing ≡ frame_of json ++ all)
unfolding pump_one
pump_one-prefix json no_deadline rest all more h = (frame_of json ++ all, refl)
pump_one-prefix none no_write rest all more h = (more, h)
pump_one-prefix none done rest all more h = (more, h)
pump_one-prefix (some payload) no_write rest all more h = (frame_of (some payload) ++ all, refl)
pump_one-prefix (some payload) done rest all more h = (more, ap (◌∷◌ (write_text_frame payload)) h)

-- What the pump writes is a beginning of the frames of all events, in order: it leaves out events that
-- have no JSON, repeats none, and stops for good where the connection fails.
pub write_pump-prefix :
    (marshal : TerminalEvent → Option (List ℕ)) (es : List (TerminalEvent × PumpOutcome))
    → (missing : List (List ℕ)) × (write_pump marshal es ++ missing ≡ frames_of marshal es)
unfolding write_pump frames_of
write_pump-prefix marshal [] = ([], refl)
write_pump-prefix marshal ((e, outcome) ∷ es) =
    let (more, h) = write_pump-prefix marshal es in
    pump_one-prefix (marshal e) outcome (write_pump marshal es) (frames_of marshal es) more h

abbrev pub IsDone : TerminalEvent × PumpOutcome → Type 0
IsDone (e, outcome) = outcome ≡ done

-- While the connection takes every event, the pump writes the frames of all events that have a JSON.
write_pump-All :
    (marshal : TerminalEvent → Option (List ℕ)) (es : List (TerminalEvent × PumpOutcome))
    → All IsDone es
    → write_pump marshal es ≡ frames_of marshal es
unfolding write_pump frames_of
write_pump-All marshal [] h = refl
write_pump-All marshal ((e, outcome) ∷ es) h =
    rw (h.0, write_pump-All marshal es h.1) (pump_done (marshal e) (frames_of marshal es))
  where
    pump_done :
        (json : Option (List ℕ)) (rest : List (List ℕ))
        → pump_one json done rest ≡ frame_of json ++ rest
    pump_done none rest = refl
    pump_done (some payload) rest = refl
