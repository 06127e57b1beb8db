-- ===== src/State.antt =====
-- backend/internal/state: the snapshot of the character, and how what was parsed of a text changes it.
-- parser.go declares the types, store.go the merge, service.go the store in memory.
pub mod Latest
pub mod Sqlite
pub mod Parser
pub mod Service
use arda_wed_gateway.Base.{
  Bool, true, false, ◌&&◌, Option, none, some, List, [], ◌∷◌, if◌then◌else◌,
}
use arda_wed_gateway.Base.Map.{Map, lookup, insert}
use arda_wed_gateway.Base.Text.{Text, text_eq}
use arda_wed_gateway.Base.Word.{ℤ}

pub record PromptTuple : Type 0 where
  pub hp_current : ℤ
  pub hp_max : ℤ
  pub ma_current : ℤ
  pub ma_max : ℤ
  pub mv_current : ℤ
  pub mv_max : ℤ
  pub exp : ℤ

-- A nil map and an empty one are both the empty list.
pub record Snapshot : Type 0 where
  pub session_id : Text
  pub location : Text
  pub prompt : Option PromptTuple
  pub status_tags : List Text
  pub equipment : Map Text
  pub updated_at : Text

pub record Delta : Type 0 where
  pub location : Text
  pub prompt : Option PromptTuple
  pub status_tags : List Text
  pub equipment : Map Text

abbrev pub is_nil {ℓ} : {A : Type ℓ} → List A → Bool
is_nil [] = true
is_nil (x ∷ xs) = false

abbrev pub is_none {ℓ} : {A : Type ℓ} → Option A → Bool
is_none none = true
is_none (some a) = false

-- Empty
unfoldable pub is_empty : Delta → Bool
is_empty d = text_eq d.location [] && is_none d.prompt && is_nil d.status_tags && is_nil d.equipment

-- The loop over delta.Equipment. Its order is open in Go; a map holds a slot once.
unfoldable pub merge_equipment : Map Text → Map Text → Map Text
merge_equipment [] m = m
merge_equipment ((slot, item) ∷ es) m = insert slot item (merge_equipment es m)

abbrev pub prefer {ℓ} : {A : Type ℓ} → Option A → Option A → Option A
prefer none b = b
prefer (some a) b = some a

-- mergeSnapshot
unfoldable pub merge_snapshot : Delta → Snapshot → Snapshot
unfolding merge_equipment
merge_snapshot d s = record s {
  location = if text_eq d.location [] then s.location else d.location;
  prompt = prefer d.prompt s.prompt;
  status_tags = if is_nil d.status_tags then s.status_tags else d.status_tags;
  equipment = merge_equipment d.equipment s.equipment;
}

-- What a call that reads a snapshot returns: an error, no snapshot, or one.
pub data Loaded : Type 0 where
  load_error not_found : Loaded
  found : Snapshot → Loaded

-- memoryStore
pub record MemoryStore : Type 0 where
  pub snapshot : Snapshot
  pub found : Bool

abbrev pub empty_snapshot : Text → Snapshot
empty_snapshot session_id = record {
  session_id = session_id;
  location = [];
  prompt = none;
  status_tags = [];
  equipment = [];
  updated_at = [];
}

abbrev pub new_memory_store : MemoryStore
new_memory_store = record { snapshot = empty_snapshot []; found = false }

abbrev pub named : Text → Snapshot → Snapshot
named session_id s = if text_eq session_id [] then s else record s { session_id = session_id }

-- UpsertDelta of the memory store, which returns no error.
unfoldable pub upsert_delta : Text → Delta → MemoryStore → MemoryStore
unfolding merge_snapshot
upsert_delta session_id d m =
    let s = if m.found then m.snapshot else empty_snapshot session_id in
    record { snapshot = named session_id (merge_snapshot d s); found = true }

-- GetLatest of the memory store; the copy that it returns is the snapshot.
unfoldable pub get_latest : MemoryStore → Option Snapshot
get_latest m = if m.found then some m.snapshot else none
