-- ===== src/Gateway/Event.antt =====
-- The events that the manager sends to the web clients (manager.go) and the frames that carry them.
pub mod Json
use arda_wed_gateway.Base.{ℕ, Bool}
use arda_wed_gateway.Base.Text.{Text}

pub record TerminalEvent : Type 0 where
  pub event : Text
  pub session_id : Text
  pub connected : Bool
  pub text : Text
  pub queue_depth : ℕ
  pub queue_max : ℕ
  pub queue_reject_code : Text
  pub timestamp : Text
