-- ===== src/State/Sqlite/History.antt =====
-- The tables after a history of deltas, where no call on the database fails.
use arda_wed_gateway.Base.{
  ℕ, suc, ◌≡◌, refl, ◌∙◌, Bool, true, false, ◌&&◌, some, List, [], ◌∷◌, arith, if◌then◌else◌,
  Option-cases, inl, inr,
}
use arda_wed_gateway.Base.Map.{Map, lookup}
use arda_wed_gateway.Base.Text.{Text, text_eq}
use arda_wed_gateway.State.{Snapshot, Delta, is_empty, prefer, found}
use arda_wed_gateway.State.Sqlite.{
  Tables, IsLawful, TagsJson, IsCodec, Faults, prompt_of, row_of, put_items, upsert_equipment,
  upsert_snapshot, save_equipment, save, upsert_delta, load_rest, load_row, get_by_session,
}

abbrev pub no_faults : Faults
no_faults = record {
  query_fails = false;
  items_fails = false;
  marshal_fails = false;
  row_fails = false;
  begin_fails = false;
  item_fails = λ n. false;
  commit_fails = false;
}

-- One call of UpsertDelta.
pub record Entry : Type 0 where
  pub session_id : Text
  pub stamp : Text
  pub delta : Delta

-- The deltas of a session, and whether all of them are empty.
unfoldable pub of_session : Text → List Entry → List (Text × Delta)
of_session id [] = []
of_session id (e ∷ es) =
    let rest = of_session id es in if text_eq e.session_id id then (id, e.delta) ∷ rest else rest

unfoldable pub all_empty : List (Text × Delta) → Bool
all_empty [] = true
all_empty ((id, d) ∷ ds) = is_empty d && all_empty ds

module _ {D : Type 0} (t : Tables D) (j : TagsJson) where
  -- The database after these calls, the latest first.
  unfoldable pub upsert_all : D → List Entry → D
  upsert_all d [] = d
  upsert_all d (e ∷ es) =
      (upsert_delta t j no_faults e.session_id e.stamp e.delta (upsert_all d es)).0

  put_all : Text → Map Text → Text → D → D
  put_all id [] stamp d = d
  put_all id ((slot, item) ∷ es) stamp d = t.put_item id slot item stamp (put_all id es stamp d)

  -- The database with a snapshot saved.
  pub stored : Snapshot → D → D
  stored s d = put_all s.session_id s.equipment s.updated_at (t.put_row (row_of t j s) d)

  put_items-put_all :
      (n : ℕ) (id : Text) (es : Map Text) (stamp : Text) (d : D)
      → put_items t j no_faults n id es stamp d ≡ some (put_all id es stamp d)
  unfolding put_items put_all
  put_items-put_all n id [] stamp d = refl
  put_items-put_all n id ((slot, item) ∷ es) stamp d =
      rw (put_items-put_all (suc n) id es stamp d) refl

  upsert_equipment-put_all :
      (id : Text) (es : Map Text) (stamp : Text) (d : D)
      → upsert_equipment t j no_faults id es stamp d ≡ some (put_all id es stamp d)
  unfolding upsert_equipment
  upsert_equipment-put_all id [] stamp d = unfold put_all in refl
  upsert_equipment-put_all id (e ∷ es) stamp d = put_items-put_all 0 id (e ∷ es) stamp d

  pub save-stored : (s : Snapshot) (d : D) → save t j no_faults s d ≡ (stored s d, true)
  unfolding save upsert_snapshot save_equipment stored
  save-stored s d =
      rw
        (upsert_equipment-put_all s.session_id s.equipment s.updated_at
          (t.put_row (row_of t j s) d))
        refl

module _ {D : Type 0} (t : Tables D) (j : TagsJson) (law : IsLawful t) (codec : IsCodec j) where
  row-put_all :
      (sid id : Text) (es : Map Text) (stamp : Text) (d : D)
      → t.row id (put_all t j sid es stamp d) ≡ t.row id d
  unfolding put_all
  row-put_all sid id [] stamp d = refl
  row-put_all sid id ((slot, item) ∷ es) stamp d =
      law.row-put_item sid slot item stamp id _ ∙ row-put_all sid id es stamp d

  lookup-put_all :
      (sid id k : Text) (es : Map Text) (stamp : Text) (d : D)
      → lookup k (t.items id (put_all t j sid es stamp d)) ≡ (
          if text_eq sid id
          then prefer (lookup k es) (lookup k (t.items id d))
          else lookup k (t.items id d))
  unfolding put_all lookup
  lookup-put_all sid id k [] stamp d = ground arith
  lookup-put_all sid id k ((slot, item) ∷ es) stamp d = ground (
    arith,
    law.items-put_item sid slot item stamp id k (put_all t j sid es stamp d),
    lookup-put_all sid id k es stamp d,
  )

  pub row-stored :
      (s : Snapshot) (id : Text) (d : D)
      → t.row id (stored t j s d)
        ≡ (if text_eq s.session_id id then some (row_of t j s) else t.row id d)
  unfolding stored
  row-stored s id d =
      row-put_all s.session_id id s.equipment s.updated_at _ ∙ law.row-put_row (row_of t j s) id d

  pub lookup-stored :
      (s : Snapshot) (id k : Text) (d : D)
      → lookup k (t.items id (stored t j s d)) ≡ (
          if text_eq s.session_id id
          then prefer (lookup k s.equipment) (lookup k (t.items id d))
          else lookup k (t.items id d))
  unfolding stored
  lookup-stored s id k d = ground (
    arith,
    lookup-put_all s.session_id id k s.equipment s.updated_at (t.put_row (row_of t j s) d),
    law.items-put_row (row_of t j s) id d,
  )

  prompt_of-row_of : (s : Snapshot) → prompt_of (row_of t j s) ≡ s.prompt
  prompt_of-row_of s = elim (Option-cases s.prompt) [ inl e ↦ rw e refl | inr (p, e) ↦ rw e refl ]

  -- What is read back of a saved snapshot: everything, with the items of the other table.
  pub get-row_of :
      (s : Snapshot) (id : Text) (d : D)
      → t.row id d ≡ some (row_of t j s)
      → get_by_session t j no_faults id d ≡ found (record s { equipment = t.items s.session_id d })
  unfolding get_by_session load_row load_rest
  get-row_of s id d e =
      rw (e, codec.full s.status_tags, codec.back s.status_tags, prompt_of-row_of s) refl
