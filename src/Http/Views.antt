-- ===== src/Http/Views.antt =====
-- state.go, suggestions.go: the handlers that show the snapshot and the suggestion, and the one that
-- cancels. What the services return is an argument where a test of another package decides it.
use arda_wed_gateway.Base.{ℕ, Bool, Option, none, some, [], ◌∷◌, ◌++◌, if◌then◌else◌}
use arda_wed_gateway.Base.Text.{Text, codes, text_eq}
use arda_wed_gateway.Base.Text.Space.{trim_space, is_blank}
use arda_wed_gateway.State.{Loaded, load_error, not_found, found}
use arda_wed_gateway.Suggestions.{Suggestion, Service, in_progress, cancel_in_flight}
use arda_wed_gateway.Http.Response.{
  text, texts, flag, Fields, snapshot, fields, Reply, write_success,
}
use arda_wed_gateway.Http.Session.{internal_error}

unfoldable pub handle_state_snapshot : Text → Text → Loaded → Reply
unfolding internal_error write_success
handle_state_snapshot id stamp load_error =
    internal_error id stamp (codes "failed to load state snapshot")
handle_state_snapshot id stamp not_found = write_success id stamp 200 (fields [])
handle_state_snapshot id stamp (found s) = write_success id stamp 200 (snapshot s)

-- RuntimeStatus
pub record RuntimeStatus : Type 0 where
  pub in_progress : Bool
  pub last_error : Text
  pub last_error_at : Text

-- Status of the service; `format_time` is time.Format.
unfoldable pub status : (ℕ → Text) → Service → RuntimeStatus
unfolding in_progress trim_space
status format_time s = record {
  in_progress = in_progress s;
  last_error = if is_blank s.last_error then [] else s.last_error;
  last_error_at = if is_blank s.last_error then [] else format_time s.last_error_at;
}

abbrev pub error_fields : RuntimeStatus → Fields
error_fields st =
    if text_eq st.last_error []
    then []
    else (codes "last_error", text st.last_error)
      ∷ (codes "last_error_at", text st.last_error_at)
      ∷ []

unfoldable pub suggestion_fields : Option Suggestion → Fields
suggestion_fields none = []
suggestion_fields (some s) =
    (codes "commands", texts s.commands)
    ∷ (codes "reason", text s.reason)
    ∷ (codes "expected_outcome", text s.expected_outcome)
    ∷ (if text_eq s.generated_at [] then [] else (codes "generated_at", text s.generated_at) ∷ [])

unfoldable pub handle_suggestions_latest : (ℕ → Text) → Text → Text → Service → Reply
unfolding write_success status suggestion_fields
handle_suggestions_latest format_time id stamp s =
    let st = status format_time s in
    write_success id stamp 200 (
      fields (
        (codes "in_progress", flag st.in_progress)
        ∷ (error_fields st ++ suggestion_fields s.latest)))

unfoldable pub handle_suggestions_cancel : Text → Text → Service → Reply
unfolding write_success cancel_in_flight
handle_suggestions_cancel id stamp s =
    write_success id stamp 200 (fields ((codes "canceled", flag (cancel_in_flight s)) ∷ []))
