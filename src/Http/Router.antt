-- ===== src/Http/Router.antt =====
-- router.go: NewRouter, which puts the components together. `upsert` is the UpsertDelta of the store,
-- `aliases` the map of equipmentAliases in the order of its range, `lower` strings.ToLower.
use arda_wed_gateway.Base.{ℕ, ◌*◌, Bool, List, [], ◌∷◌, some}
use arda_wed_gateway.Base.Map.{Map}
use arda_wed_gateway.Base.Text.{Text}
use arda_wed_gateway.Base.Word.{ℤ, pos, negsuc}
use arda_wed_gateway.Config.{Config, positive_or, millisecond}
use arda_wed_gateway.Gateway.Manager.{Manager, new_manager, Effect, closes, writes, on_terminal}
use arda_wed_gateway.Gateway.Metrics.{new_metrics}
use arda_wed_gateway.State.{Delta}
use arda_wed_gateway.State.Parser.Parse.{ingest}
use arda_wed_gateway.Suggestions.Timers.{Debouncer, new_debouncer, take_text}
use arda_wed_gateway.Suggestions.OpenRouter.{OpenRouterClient, new_open_router_client}

-- Router; the metrics are the manager's, `state` the store behind the state service.
pub record Router {ℓ} (S : Type ℓ) : Type ℓ where
  pub cfg : Config
  pub counter : ℕ
  pub manager : Manager
  pub queue_interval : ℤ
  pub state : S
  pub suggestions : Debouncer
  pub client : OpenRouterClient

-- A positive number, 0 for others.
abbrev pub size_of : ℤ → ℕ
size_of (pos n) = n
size_of (negsuc n) = 0

-- NewRouter, but for the routes of net/http.
unfoldable pub new_router {ℓ} : {S : Type ℓ} → Config → S → Router S
unfolding new_manager new_debouncer new_open_router_client positive_or
new_router cfg state = record {
  cfg = cfg;
  counter = 0;
  manager = new_manager (size_of (positive_or (pos 20) (some cfg.queue_max_depth))) new_metrics;
  queue_interval = positive_or (pos (500 * millisecond)) (some cfg.queue_send_interval);
  state = state;
  suggestions = new_debouncer cfg.suggest_debounce (size_of cfg.suggest_recent_lines);
  client =
      new_open_router_client cfg.open_router_base_url cfg.open_router_model cfg.open_router_api_key
        cfg.open_router_timeout;
}

module _ {ℓ} {S : Type ℓ} (upsert : Text → Delta → S → S × Bool) (lower : Text → Text)
    (aliases : Map (List Text)) where
  -- The function that NewRouter gives the manager for the texts of the terminal.
  unfoldable pub take_terminal : Text → Text → Router S → Router S
  unfolding ingest take_text
  take_terminal id text r = record r {
    state = (ingest upsert lower aliases id text r.state).0;
    suggestions = take_text id text r.suggestions;
  }

  -- The calls of it that the manager made, the latest first.
  unfoldable pub take_effects : List Effect → Router S → Router S
  unfolding take_terminal
  take_effects [] r = r
  take_effects (closes conn ∷ es) r = take_effects es r
  take_effects (writes conn bytes ∷ es) r = take_effects es r
  take_effects (on_terminal id text ∷ es) r = take_terminal id text (take_effects es r)
