-- ===== src/State/Sqlite/Stored.antt =====
-- What GetBySession reads after a history of deltas of many sessions.
use arda_wed_gateway.Base.{
  ◌≡◌, refl, ◌∙◌, Bool, true, false, ◌||◌, none, some, List, [], ◌∷◌, arith, Bool-cases, inl, inr,
  if_cases,
}
use arda_wed_gateway.Base.Map.{lookup}
use arda_wed_gateway.Base.Text.{Text, text_eq, text_eq→eq, text_eq_refl}
use arda_wed_gateway.State.{
  Snapshot, Delta, is_empty, empty_snapshot, merge_snapshot, Loaded, load_error, not_found, found,
}
use arda_wed_gateway.State.Latest.{
  IsLatest, IsLatest-same, IsLatest-empty, lookup-merge_equipment, merge-IsLatest, empty-IsLatest,
}
use arda_wed_gateway.State.Sqlite.{
  Tables, IsLawful, TagsJson, IsCodec, row_of, updated, upsert_on, upsert_delta, get_by_session,
  load_row,
}
use arda_wed_gateway.State.Sqlite.History.{
  no_faults, Entry, of_session, all_empty, upsert_all, stored, save-stored, row-stored,
  lookup-stored, get-row_of,
}

module _ {D : Type 0} (t : Tables D) (j : TagsJson) where
  -- The tables hold nothing of a session.
  pub record IsFresh (id : Text) (d : D) : Type 0 where
    pub no_row : t.row id d ≡ none
    pub no_items : (k : Text) → lookup k (t.items id d) ≡ none

  -- The tables hold the latest values of these deltas: in one row and in the items, or nothing where
  -- every delta is empty.
  data Keeps (id : Text) (ds : List (Text × Delta)) (d : D) : Type 0 where
    nothing : IsFresh id d → all_empty ds ≡ true → Keeps id ds d
    keeps :
        (s : Snapshot)
        → t.row id d ≡ some (row_of t j s)
        → s.session_id ≡ id
        → IsLatest ds (record s { equipment = t.items id d })
        → all_empty ds ≡ false
        → Keeps id ds d

  -- What GetBySession returns for a session of these deltas.
  abbrev pub IsRead : Text → List (Text × Delta) → Loaded → Type 0
  IsRead id ds load_error = ⊥
  IsRead id ds not_found = all_empty ds ≡ true
  IsRead id ds (found s) = (s.session_id ≡ id) × IsLatest ds s × (all_empty ds ≡ false)

  -- Nothing of another session is touched.
  Keeps-other :
      (id : Text) (ds : List (Text × Delta)) (d d' : D)
      → t.row id d' ≡ t.row id d
      → ((k : Text) → lookup k (t.items id d') ≡ lookup k (t.items id d))
      → Keeps id ds d
      → Keeps id ds d'
  Keeps-other id ds d d' r i (nothing f a) =
      nothing (record { no_row = r ∙ f.no_row; no_items = λ k. i k ∙ f.no_items k }) a
  Keeps-other id ds d d' r i (keeps s e n l a) =
      keeps s (r ∙ e) n (IsLatest-same ds _ _ refl refl refl i l) a

  Keeps-empty :
      (id : Text) (δ : Delta) (ds : List (Text × Delta)) (d : D)
      → is_empty δ ≡ true
      → Keeps id ds d
      → Keeps id ((id, δ) ∷ ds) d
  unfolding all_empty
  Keeps-empty id δ ds d h (nothing f a) = nothing f (rw (h, a) refl)
  Keeps-empty id δ ds d h (keeps s e n l a) =
      keeps s e n (IsLatest-empty id δ ds _ h l) (rw (h, a) refl)

module _ {D : Type 0} (t : Tables D) (j : TagsJson) (law : IsLawful t) (codec : IsCodec j) where
  empty_deltas-IsLatest :
      (id : Text) (ds : List (Text × Delta)) → all_empty ds ≡ true → IsLatest ds (empty_snapshot id)
  unfolding all_empty
  empty_deltas-IsLatest id [] h = empty-IsLatest id
  empty_deltas-IsLatest id ((i, δ) ∷ ds) h =
      IsLatest-empty i δ ds _ (ground arith) (empty_deltas-IsLatest id ds (ground arith))

  saved_items :
      (id stamp : Text) (δ : Delta) (base : Snapshot) (d : D) (k : Text)
      → lookup k (t.items id d) ≡ lookup k base.equipment
      → lookup k (t.items id (stored t j (updated t j id stamp δ base) d))
        ≡ lookup k (merge_snapshot δ base).equipment
  unfolding updated merge_snapshot
  saved_items id stamp δ base d k e = ground (
    arith,
    lookup-stored t j law codec (updated t j id stamp δ base) id k d,
    text_eq_refl id,
    lookup-merge_equipment k δ.equipment base.equipment,
  )

  saved-Keeps :
      (id stamp : Text) (δ : Delta) (ds : List (Text × Delta)) (base : Snapshot) (d : D)
      → is_empty δ ≡ false
      → IsLatest ds base
      → ((k : Text) → lookup k (t.items id d) ≡ lookup k base.equipment)
      → Keeps t j id ((id, δ) ∷ ds) (stored t j (updated t j id stamp δ base) d)
  unfolding updated all_empty
  saved-Keeps id stamp δ ds base d h l e =
      keeps (updated t j id stamp δ base)
        (row-stored t j law codec (updated t j id stamp δ base) id d ∙ rw (text_eq_refl id) refl)
        refl
        (IsLatest-same ((id, δ) ∷ ds) (merge_snapshot δ base) _ refl refl refl
          (λ k. saved_items id stamp δ base d k (e k)) (merge-IsLatest id δ ds base l))
        (rw h refl)

  own-Keeps :
      (id stamp : Text) (δ : Delta) (ds : List (Text × Delta)) (d : D)
      → is_empty δ ≡ false
      → text_eq id [] ≡ false
      → Keeps t j id ds d
      → Keeps t j id ((id, δ) ∷ ds) (upsert_delta t j no_faults id stamp δ d).0
  unfolding upsert_delta upsert_on
  own-Keeps id stamp δ ds d h b (nothing f a) =
      let read : get_by_session t j no_faults id d ≡ not_found =
        unfold get_by_session load_row in rw f.no_row refl in
      rw (b, h, read, save-stored t j (updated t j id stamp δ (empty_snapshot id)) d)
        (saved-Keeps id stamp δ ds (empty_snapshot id) d h (empty_deltas-IsLatest id ds a)
          (λ k. f.no_items k ∙ unfold lookup in refl))
  own-Keeps id stamp δ ds d h b (keeps s e n l a) =
      let base : Snapshot = record s { equipment = t.items id d } in
      let read : get_by_session t j no_faults id d ≡ found base =
        get-row_of t j law codec s id d e ∙ rw n refl in
      rw (b, h, read, save-stored t j (updated t j id stamp δ base) d)
        (saved-Keeps id stamp δ ds base d h l (λ k. refl))

  stored_other :
      (sid id stamp : Text) (δ : Delta) (base : Snapshot) (ds : List (Text × Delta)) (d : D)
      → text_eq sid id ≡ false
      → Keeps t j id ds d
      → Keeps t j id ds (stored t j (updated t j sid stamp δ base) d)
  unfolding updated
  stored_other sid id stamp δ base ds d h k =
      Keeps-other t j id ds d _
        (row-stored t j law codec (updated t j sid stamp δ base) id d ∙ rw h refl)
        (λ i. lookup-stored t j law codec (updated t j sid stamp δ base) id i d ∙ rw h refl) k

  upsert_other :
      (sid id stamp : Text) (δ : Delta) (r : Loaded) (ds : List (Text × Delta)) (d : D)
      → text_eq sid id ≡ false
      → Keeps t j id ds d
      → Keeps t j id ds (upsert_on t j no_faults sid stamp δ r d).0
  unfolding upsert_on
  upsert_other sid id stamp δ load_error ds d h k = k
  upsert_other sid id stamp δ not_found ds d h k =
      rw (save-stored t j (updated t j sid stamp δ (empty_snapshot sid)) d)
        (stored_other sid id stamp δ (empty_snapshot sid) ds d h k)
  upsert_other sid id stamp δ (found s) ds d h k =
      rw (save-stored t j (updated t j sid stamp δ s) d) (stored_other sid id stamp δ s ds d h k)

  entry-Keeps :
      (id : Text) (e : Entry) (es : List Entry) (d : D)
      → text_eq id [] ≡ false
      → Keeps t j id (of_session id es) d
      → Keeps t j id
          (of_session id (e ∷ es))
          (upsert_delta t j no_faults e.session_id e.stamp e.delta d).0
  unfolding of_session
  entry-Keeps id e es d b k = elim (Bool-cases (text_eq e.session_id id)) [
    | inl p ↦
        let same : e.session_id ≡ id = text_eq→eq e.session_id id p in
        rw (p, same)
          (elim (Bool-cases (is_empty e.delta)) [
            | inl q ↦
                unfold upsert_delta in
                rw (b, q) (Keeps-empty t j id e.delta (of_session id es) d q k)
            | inr q ↦ own-Keeps id e.stamp e.delta (of_session id es) d q b k
          ])
    | inr p ↦
        unfold upsert_delta in
        rw p (
          if_cases (λ (r : D × Bool). Keeps t j id (of_session id es) r.0)
            (text_eq e.session_id [] || is_empty e.delta) (λ q. k)
            (λ q. upsert_other e.session_id id e.stamp e.delta _ (of_session id es) d p k))
  ]

  upsert_all-Keeps :
      (id : Text) (es : List Entry) (d : D)
      → text_eq id [] ≡ false
      → IsFresh t j id d
      → Keeps t j id (of_session id es) (upsert_all t j d es)
  unfolding upsert_all of_session all_empty
  upsert_all-Keeps id [] d b f = nothing f refl
  upsert_all-Keeps id (e ∷ es) d b f = entry-Keeps id e es _ b (upsert_all-Keeps id es d b f)

  Keeps-IsRead :
      (id : Text) (ds : List (Text × Delta)) (d : D)
      → Keeps t j id ds d
      → IsRead t j id ds (get_by_session t j no_faults id d)
  Keeps-IsRead id ds d (nothing f a) =
      let read : get_by_session t j no_faults id d ≡ not_found =
        unfold get_by_session load_row in rw f.no_row refl in
      rw read a
  Keeps-IsRead id ds d (keeps s e n l a) =
      let read : get_by_session t j no_faults id d ≡ found (record s { equipment = t.items id d }) =
        get-row_of t j law codec s id d e ∙ rw n refl in
      rw read (n, l, a)

  -- On tables that hold nothing of a session with a name, after any history of deltas for this session
  -- and others, the latest first, and where no call on the database fails: GetBySession finds nothing
  -- if every delta of the session was empty, and else a snapshot of the session in which the location,
  -- the prompt, the tags and the item of every slot are each the one of the session's latest delta that
  -- has one. It assumes that the two INSERT statements replace one row or one item each and touch
  -- no other, and that decoding gives back the tags that were encoded, in a text that is not empty.
  pub get_by_session-IsRead :
      (id : Text) (es : List Entry) (d : D)
      → text_eq id [] ≡ false
      → IsFresh t j id d
      → IsRead t j id (of_session id es) (get_by_session t j no_faults id (upsert_all t j d es))
  get_by_session-IsRead id es d b f =
      Keeps-IsRead id (of_session id es) _ (upsert_all-Keeps id es d b f)
