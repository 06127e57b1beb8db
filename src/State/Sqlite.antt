-- ===== src/State/Sqlite.antt =====
-- backend/internal/state/store.go: the store in two tables of SQLite. The tables are a parameter, with
-- what the statements of the store are documented to do as laws; so is the JSON of the tags. The text
-- of an error is left out.
pub mod History
pub mod Stored
pub mod Rollback
pub mod Open
pub mod Load
use arda_wed_gateway.Base.{
  ℕ, zero, suc, ◌≡◌, ◌≢◌, Bool, true, false, not, ◌&&◌, ◌||◌, Option, none, some, List, [], ◌∷◌,
  if◌then◌else◌,
}
use arda_wed_gateway.Base.Map.{Map, lookup}
use arda_wed_gateway.Base.Text.{Text, text_eq}
use arda_wed_gateway.Base.Text.Order.{text_leb}
use arda_wed_gateway.Base.Word.{ℤ}
use arda_wed_gateway.State.{
  PromptTuple, Snapshot, Delta, is_nil, is_empty, empty_snapshot, merge_snapshot, Loaded,
  load_error, not_found, found,
}

-- A row of the table state_snapshot; `none` is NULL.
pub record Row : Type 0 where
  pub session_id : Text
  pub location : Text
  pub hp_current : Option ℤ
  pub hp_max : Option ℤ
  pub ma_current : Option ℤ
  pub ma_max : Option ℤ
  pub mv_current : Option ℤ
  pub mv_max : Option ℤ
  pub exp : Option ℤ
  pub status_tags_json : Text
  pub updated_at : Text

-- The row and the items of a session, a session whose row has the greatest `updated_at`, and the two
-- INSERT statements with their ON CONFLICT DO UPDATE.
pub record Tables (D : Type 0) : Type 0 where
  pub row : Text → D → Option Row
  pub items : Text → D → Map Text
  pub latest : D → Option Text
  pub put_row : Row → D → D
  pub put_item : Text → Text → Text → Text → D → D

-- What these do to each other.
pub record IsLawful {D : Type 0} (t : Tables D) : Type 0 where
  pub row-put_row :
      (r : Row) (id : Text) (d : D)
      → t.row id (t.put_row r d) ≡ (if text_eq r.session_id id then some r else t.row id d)
  pub items-put_row : (r : Row) (id : Text) (d : D) → t.items id (t.put_row r d) ≡ t.items id d
  pub row-put_item :
      (s slot item stamp id : Text) (d : D) → t.row id (t.put_item s slot item stamp d) ≡ t.row id d
  pub items-put_item :
      (s slot item stamp id k : Text) (d : D)
      → lookup k (t.items id (t.put_item s slot item stamp d))
        ≡ (if text_eq s id && text_eq slot k then some item else lookup k (t.items id d))

-- encoding/json for the tags: an encoding that is not empty, and is decoded to what it encodes.
pub record TagsJson : Type 0 where
  pub marshal : List Text → Text
  pub unmarshal : Text → Option (List Text)

pub record IsCodec (j : TagsJson) : Type 0 where
  pub back : (tags : List Text) → j.unmarshal (j.marshal tags) ≡ some tags
  pub full : (tags : List Text) → text_eq (j.marshal tags) [] ≡ false

-- Which calls on the database fail; `item_fails n` is about the n-th item of a transaction.
pub record Faults : Type 0 where
  pub query_fails : Bool
  pub items_fails : Bool
  pub marshal_fails : Bool
  pub row_fails : Bool
  pub begin_fails : Bool
  pub item_fails : ℕ → Bool
  pub commit_fails : Bool

abbrev pub value_of : (PromptTuple → ℤ) → Option PromptTuple → Option ℤ
value_of f none = none
value_of f (some p) = some (f p)

abbrev pub all_valid :
    Option ℤ → Option ℤ → Option ℤ → Option ℤ → Option ℤ → Option ℤ → Option ℤ → Option PromptTuple
all_valid (some a) (some b) (some c) (some d) (some e) (some f) (some g) = some (record {
  hp_current = a;
  hp_max = b;
  ma_current = c;
  ma_max = d;
  mv_current = e;
  mv_max = f;
  exp = g;
})
all_valid a b c d e f g = none

abbrev pub prompt_of : Row → Option PromptTuple
prompt_of r = all_valid r.hp_current r.hp_max r.ma_current r.ma_max r.mv_current r.mv_max r.exp

module _ {D : Type 0} (t : Tables D) (j : TagsJson) where
  abbrev pub row_of : Snapshot → Row
  row_of s = record {
    session_id = s.session_id;
    location = s.location;
    hp_current = value_of (λ p. p.hp_current) s.prompt;
    hp_max = value_of (λ p. p.hp_max) s.prompt;
    ma_current = value_of (λ p. p.ma_current) s.prompt;
    ma_max = value_of (λ p. p.ma_max) s.prompt;
    mv_current = value_of (λ p. p.mv_current) s.prompt;
    mv_max = value_of (λ p. p.mv_max) s.prompt;
    exp = value_of (λ p. p.exp) s.prompt;
    status_tags_json = j.marshal s.status_tags;
    updated_at = s.updated_at;
  }

  abbrev pub tags_of : Text → Option (List Text)
  tags_of text = if text_eq text [] then some [] else j.unmarshal text

  -- What follows the scan of the row.
  unfoldable pub load_rest : Faults → Row → Option (List Text) → D → Loaded
  load_rest f r none d = load_error
  load_rest f r (some tags) d =
      if f.items_fails
      then load_error
      else found (record {
        session_id = r.session_id;
        location = r.location;
        prompt = prompt_of r;
        status_tags = tags;
        equipment = t.items r.session_id d;
        updated_at = r.updated_at;
      })

  unfoldable pub load_row : Faults → Option Row → D → Loaded
  unfolding load_rest
  load_row f none d = not_found
  load_row f (some r) d = load_rest f r (tags_of r.status_tags_json) d

  -- GetBySession
  unfoldable pub get_by_session : Faults → Text → D → Loaded
  unfolding load_row
  get_by_session f id d = if f.query_fails then load_error else load_row f (t.row id d) d

  -- GetLatest; `fails` is about its query.
  unfoldable pub get_latest : Bool → Faults → D → Loaded
  unfolding get_by_session
  get_latest fails f d =
      if fails
      then load_error
      else elim (t.latest d) [ none ↦ not_found | some id ↦ get_by_session f id d ]

  -- upsertSnapshot; `none` is an error.
  unfoldable pub upsert_snapshot : Faults → Snapshot → D → Option D
  upsert_snapshot f s d =
      if f.marshal_fails || f.row_fails then none else some (t.put_row (row_of s) d)

  unfoldable pub put_next : Bool → Text → Text → Text → Text → Option D → Option D
  put_next fails id slot item stamp none = none
  put_next fails id slot item stamp (some d) =
      if fails then none else some (t.put_item id slot item stamp d)

  -- The loop of the transaction. Its order is open in Go; the number `n` names an item.
  unfoldable pub put_items : Faults → ℕ → Text → Map Text → Text → D → Option D
  unfolding put_next
  put_items f n id [] stamp d = some d
  put_items f n id ((slot, item) ∷ es) stamp d =
      put_next (f.item_fails n) id slot item stamp (put_items f (suc n) id es stamp d)

  -- upsertEquipment; an error rolls back what the transaction did.
  unfoldable pub upsert_equipment : Faults → Text → Map Text → Text → D → Option D
  unfolding put_items
  upsert_equipment f id equipment stamp d =
      if is_nil equipment
      then some d
      else (if f.begin_fails
          then none
          else (if f.commit_fails then none else put_items f 0 id equipment stamp d))

  abbrev pub or_keep : Option D → D → D × Bool
  or_keep none d = (d, false)
  or_keep (some d') d = (d', true)

  unfoldable pub save_equipment : Faults → Snapshot → Option D → D → D × Bool
  unfolding upsert_equipment
  save_equipment f s none d = (d, false)
  save_equipment f s (some d') d =
      or_keep (upsert_equipment f s.session_id s.equipment s.updated_at d') d'

  -- The snapshot that UpsertDelta saves on top of this one.
  unfoldable pub updated : Text → Text → Delta → Snapshot → Snapshot
  unfolding merge_snapshot
  updated id stamp delta s = record (merge_snapshot delta s) { session_id = id; updated_at = stamp }

  unfoldable pub save : Faults → Snapshot → D → D × Bool
  unfolding save_equipment upsert_snapshot
  save f s d = save_equipment f s (upsert_snapshot f s d) d

  unfoldable pub upsert_on : Faults → Text → Text → Delta → Loaded → D → D × Bool
  unfolding updated save
  upsert_on f id stamp delta load_error d = (d, false)
  upsert_on f id stamp delta not_found d = save f (updated id stamp delta (empty_snapshot id)) d
  upsert_on f id stamp delta (found s) d = save f (updated id stamp delta s) d

  -- UpsertDelta at the time `stamp`: the database, and whether it returns no error.
  unfoldable pub upsert_delta : Faults → Text → Text → Delta → D → D × Bool
  unfolding get_by_session upsert_on is_empty
  upsert_delta f id stamp delta d =
      if text_eq id [] || is_empty delta
      then (d, true)
      else upsert_on f id stamp delta (get_by_session f id d) d
