-- ===== src/State/Sqlite/Rollback.antt =====
-- UpsertDelta where calls on the database fail.
use arda_wed_gateway.Base.{
  ℕ, suc, ◌≡◌, ◌⊎◌, refl, ◌∙◌, Bool, true, false, ◌||◌, Option, none, some, List, [], ◌∷◌,
  if◌then◌else◌, Bool-cases, inl, inr,
}
use arda_wed_gateway.Base.Map.{Map}
use arda_wed_gateway.Base.Text.{Text, text_eq}
use arda_wed_gateway.State.{
  Snapshot, Delta, is_empty, empty_snapshot, Loaded, load_error, not_found, found,
}
use arda_wed_gateway.State.Sqlite.{
  Row, Tables, IsLawful, TagsJson, Faults, row_of, tags_of, or_keep, put_next, put_items,
  upsert_equipment, upsert_snapshot, save_equipment, save, updated, upsert_on, upsert_delta,
  load_rest, load_row, get_by_session,
}
use arda_wed_gateway.State.Sqlite.History.{no_faults}

-- A further call that may fail.
gated :
    {A : Type 0} (b : Bool) (bad x y : A)
    → ((x ≡ bad) ⊎ (x ≡ y))
    → ((if b then bad else x) ≡ bad) ⊎ ((if b then bad else x) ≡ y)
gated true bad x y h = inl refl
gated false bad x y h = h

module _ {D : Type 0} (t : Tables D) (j : TagsJson) where
  -- A result with an error leaves the items of every session as they were, and the rows of the other
  -- sessions; one without is what comes of calls that do not fail.
  pub record IsSafe (id : Text) (d calm : D) (r : D × Bool) : Type 0 where
    pub whole : r.1 ≡ true → r.0 ≡ calm
    pub items_kept : r.1 ≡ false → (s : Text) → t.items s r.0 ≡ t.items s d
    pub rows_kept : r.1 ≡ false → (s : Text) → text_eq id s ≡ false → t.row s r.0 ≡ t.row s d

  unchanged : (id : Text) (d calm : D) → IsSafe id d calm (d, false)
  unchanged id d calm = record {
    whole = λ e. cc;
    items_kept = λ e s. refl;
    rows_kept = λ e s n. refl;
  }

  put_next-calm :
      (b : Bool) (id slot item stamp : Text) (o p : Option D)
      → ((o ≡ none) ⊎ (o ≡ p))
      → (put_next t j b id slot item stamp o ≡ none)
        ⊎ (put_next t j b id slot item stamp o ≡ put_next t j false id slot item stamp p)
  unfolding put_next
  put_next-calm b id slot item stamp o p (inl e) = inl (rw e refl)
  put_next-calm true id slot item stamp none p (inr e) = inl refl
  put_next-calm true id slot item stamp (some d) p (inr e) = inl refl
  put_next-calm false id slot item stamp o p (inr e) = inr (rw e refl)

  put_items-calm :
      (f : Faults) (n : ℕ) (id : Text) (es : Map Text) (stamp : Text) (d : D)
      → (put_items t j f n id es stamp d ≡ none)
        ⊎ (put_items t j f n id es stamp d ≡ put_items t j no_faults n id es stamp d)
  unfolding put_items
  put_items-calm f n id [] stamp d = inr refl
  put_items-calm f n id ((slot, item) ∷ es) stamp d =
      put_next-calm (f.item_fails n) id slot item stamp _ _ (put_items-calm f (suc n) id es stamp d)

  equipment-calm :
      (f : Faults) (id : Text) (es : Map Text) (stamp : Text) (d : D)
      → (upsert_equipment t j f id es stamp d ≡ none)
        ⊎ (upsert_equipment t j f id es stamp d ≡ upsert_equipment t j no_faults id es stamp d)
  unfolding upsert_equipment
  equipment-calm f id [] stamp d = inr refl
  equipment-calm f id (e ∷ es) stamp d =
      gated f.begin_fails none _ _
        (gated f.commit_fails none _ _ (put_items-calm f 0 id (e ∷ es) stamp d))

  load_rest-calm :
      (f : Faults) (r : Row) (o : Option (List Text)) (d : D)
      → (load_rest t j f r o d ≡ load_error)
        ⊎ (load_rest t j f r o d ≡ load_rest t j no_faults r o d)
  unfolding load_rest
  load_rest-calm f r none d = inl refl
  load_rest-calm f r (some tags) d = gated f.items_fails load_error _ _ (inr refl)

  load_row-calm :
      (f : Faults) (o : Option Row) (d : D)
      → (load_row t j f o d ≡ load_error) ⊎ (load_row t j f o d ≡ load_row t j no_faults o d)
  unfolding load_row
  load_row-calm f none d = inr refl
  load_row-calm f (some r) d = load_rest-calm f r (tags_of t j r.status_tags_json) d

  get-calm :
      (f : Faults) (id : Text) (d : D)
      → (get_by_session t j f id d ≡ load_error)
        ⊎ (get_by_session t j f id d ≡ get_by_session t j no_faults id d)
  unfolding get_by_session
  get-calm f id d = gated f.query_fails load_error _ _ (load_row-calm f (t.row id d) d)

module _ {D : Type 0} (t : Tables D) (j : TagsJson) (law : IsLawful t) where
  -- The row is saved, and the transaction fails.
  row_only :
      (s : Snapshot) (d calm : D)
      → IsSafe t j s.session_id d calm (t.put_row (row_of t j s) d, false)
  row_only s d calm = record {
    whole = λ e. cc;
    items_kept = λ e i. law.items-put_row (row_of t j s) i d;
    rows_kept = λ e i n. law.row-put_row (row_of t j s) i d ∙ rw n refl;
  }

  saved :
      (s : Snapshot) (d : D) (o p : Option D)
      → ((o ≡ none) ⊎ (o ≡ p))
      → IsSafe t j s.session_id d
          (or_keep t j p (t.put_row (row_of t j s) d)).0
          (or_keep t j o (t.put_row (row_of t j s) d))
  saved s d o p (inl e) = rw e (row_only s d _)
  saved s d o none (inr e) = rw e (row_only s d _)
  saved s d o (some d') (inr e) =
      rw e (record { whole = λ q. refl; items_kept = λ q. cc; rows_kept = λ q. cc })

  save-IsSafe :
      (f : Faults) (s : Snapshot) (d : D)
      → IsSafe t j s.session_id d (save t j no_faults s d).0 (save t j f s d)
  unfolding save upsert_snapshot save_equipment
  save-IsSafe f s d = elim (Bool-cases (f.marshal_fails || f.row_fails)) [
    | inl p ↦ rw p (unchanged t j s.session_id d _)
    | inr p ↦ rw p (
        saved s d _ _
          (equipment-calm t j f s.session_id s.equipment s.updated_at (t.put_row (row_of t j s) d)))
  ]

  upsert_on-IsSafe :
      (f : Faults) (id stamp : Text) (δ : Delta) (r : Loaded) (d : D)
      → IsSafe t j id d (upsert_on t j no_faults id stamp δ r d).0 (upsert_on t j f id stamp δ r d)
  unfolding upsert_on updated
  upsert_on-IsSafe f id stamp δ load_error d = unchanged t j id d d
  upsert_on-IsSafe f id stamp δ not_found d =
      save-IsSafe f (updated t j id stamp δ (empty_snapshot id)) d
  upsert_on-IsSafe f id stamp δ (found s) d = save-IsSafe f (updated t j id stamp δ s) d

  -- If UpsertDelta returns an error, whichever calls on the database failed, then the items of every
  -- session are as they were, and so are the rows of the other sessions; only the row of this session
  -- may hold the new values. If it returns none, the database is what it is where no call fails.
  pub upsert_delta-IsSafe :
      (f : Faults) (id stamp : Text) (δ : Delta) (d : D)
      → IsSafe t j id d
          (upsert_delta t j no_faults id stamp δ d).0
          (upsert_delta t j f id stamp δ d)
  unfolding upsert_delta
  upsert_delta-IsSafe f id stamp δ d = elim (Bool-cases (text_eq id [] || is_empty δ)) [
    | inl p ↦ rw p (record { whole = λ e. refl; items_kept = λ e. cc; rows_kept = λ e. cc })
    | inr p ↦ rw p (elim (get-calm t j f id d) [
      | inl q ↦ rw q (unfold upsert_on in unchanged t j id d _)
      | inr q ↦ rw q (upsert_on-IsSafe f id stamp δ _ d)
    ])
  ]
