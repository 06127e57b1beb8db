-- ===== src/State/Service.antt =====
-- backend/internal/state/service.go: the service over one of the two stores. `lower` is
-- strings.ToLower, `aliases` the map equipmentAliases in the order of its range.
use arda_wed_gateway.Base.{Bool, true, List, Option, none, some}
use arda_wed_gateway.Base.Map.{Map}
use arda_wed_gateway.Base.Text.{Text}
use arda_wed_gateway.State.{Delta, Loaded, not_found, found, MemoryStore, new_memory_store}
use arda_wed_gateway.State
use arda_wed_gateway.State.Parser.Parse.{ingest}
use arda_wed_gateway.State.Sqlite.{Tables, TagsJson, Faults}
use arda_wed_gateway.State.Sqlite

-- The interface `store`: the SQLite store, or the store in memory.
pub data Store (D : Type 0) : Type 0 where
  sqlite : D → Store D
  memory : MemoryStore → Store D

-- The state service as the rest of the gateway sees it: what Ingest and Snapshot do to the store. `M`
-- is what they meet outside the program.
pub record StateService {ℓ κ} (S : Type ℓ) (M : Type κ) : Type (ℓ ⊔ κ) where
  pub upsert : M → Text → Delta → S → S × Bool
  pub load : M → S → Loaded

-- The failures of the database and the time, at one call.
pub record Moment : Type 0 where
  pub faults : Faults
  pub query_fails : Bool
  pub stamp : Text

-- NewService: the store in memory where NewSQLiteStore returns an error.
unfoldable pub new_service : {D : Type 0} → Option D → Store D
new_service none = memory new_memory_store
new_service (some d) = sqlite d

abbrev pub loaded_or : Option State.Snapshot → Loaded
loaded_or none = not_found
loaded_or (some s) = found s

module _ {D : Type 0} (t : Tables D) (j : TagsJson) where
  abbrev sqlite_result : D × Bool → Store D × Bool
  sqlite_result (d, ok) = (sqlite d, ok)

  -- store.UpsertDelta at the time `stamp`.
  unfoldable pub upsert : Faults → Text → Text → Delta → Store D → Store D × Bool
  unfolding Sqlite.upsert_delta State.upsert_delta
  upsert f stamp id delta (sqlite d) = sqlite_result (Sqlite.upsert_delta t j f id stamp delta d)
  upsert f stamp id delta (memory m) = (memory (State.upsert_delta id delta m), true)

  -- Snapshot; `fails` is about the query for the latest session.
  unfoldable pub snapshot : Bool → Faults → Store D → Loaded
  unfolding Sqlite.get_latest State.get_latest
  snapshot fails f (sqlite d) = Sqlite.get_latest t j fails f d
  snapshot fails f (memory m) = loaded_or (State.get_latest m)

  -- Ingest of the service with this store.
  unfoldable pub ingest_text :
      Faults → Text → (Text → Text) → Map (List Text) → Text → Text → Store D → Store D × Bool
  unfolding ingest upsert
  ingest_text f stamp lower aliases id text s = ingest (upsert f stamp) lower aliases id text s

  -- The service over either store.
  unfoldable pub state_service : StateService (Store D) Moment
  unfolding upsert snapshot
  state_service = record {
    upsert = λ now id delta s. upsert now.faults now.stamp id delta s;
    load = λ now s. snapshot now.query_fails now.faults s;
  }
