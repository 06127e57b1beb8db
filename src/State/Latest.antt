-- ===== src/State/Latest.antt =====
-- The store in memory, against the history of what was parsed.
use arda_wed_gateway.Base.{
  ◌≡◌, refl, ◌∙◌, ap, not, if_cases, true, Option, none, some, List, [], ◌∷◌, arith, if◌then◌else◌,
}
use arda_wed_gateway.Base.Map.{Map, lookup}
use arda_wed_gateway.Base.Map.Laws.{lookup-insert}
use arda_wed_gateway.Base.Text.{Text, text_eq}
use arda_wed_gateway.State.{
  Snapshot, Delta, is_nil, is_empty, prefer, merge_equipment, merge_snapshot, MemoryStore,
  empty_snapshot, new_memory_store, named, upsert_delta, get_latest,
}

-- The store after a history of deltas, each with its session, the latest one first.
pub upsert_all : List (Text × Delta) → MemoryStore
upsert_all [] = new_memory_store
upsert_all ((id, d) ∷ ds) = upsert_delta id d (upsert_all ds)

-- The latest value that a delta of the history has.
pub latest {ℓ} : {A : Type ℓ} → (Delta → Option A) → List (Text × Delta) → Option A
latest f [] = none
latest f ((id, d) ∷ ds) = prefer (f d) (latest f ds)

abbrev pub location_of : Delta → Option Text
location_of d = if text_eq d.location [] then none else some d.location

abbrev pub tags_of : Delta → Option (List Text)
tags_of d = if is_nil d.status_tags then none else some d.status_tags

abbrev pub or_nil {ℓ} : {A : Type ℓ} → Option (List A) → List A
or_nil none = []
or_nil (some l) = l

-- What is read of the store after a history.
pub record IsLatest (ds : List (Text × Delta)) (s : Snapshot) : Type 0 where
  pub location : s.location ≡ or_nil (latest location_of ds)
  pub prompt : s.prompt ≡ latest (λ d. d.prompt) ds
  pub status_tags : s.status_tags ≡ or_nil (latest tags_of ds)
  pub equipment : (slot : Text) → lookup slot s.equipment ≡ latest (λ d. lookup slot d.equipment) ds

pub lookup-merge_equipment :
    (slot : Text) (es m : Map Text)
    → lookup slot (merge_equipment es m) ≡ prefer (lookup slot es) (lookup slot m)
unfolding merge_equipment lookup
lookup-merge_equipment slot [] m = refl
lookup-merge_equipment slot ((k, v) ∷ es) m =
    ground (arith, lookup-insert k slot v (merge_equipment es m), lookup-merge_equipment slot es m)

pub merge-IsLatest :
    (id : Text) (d : Delta) (ds : List (Text × Delta)) (s : Snapshot)
    → IsLatest ds s
    → IsLatest ((id, d) ∷ ds) (merge_snapshot d s)
unfolding merge_snapshot latest
merge-IsLatest id d ds s v = record {
  location = ground (arith, v.location);
  prompt = ap (prefer d.prompt) v.prompt;
  status_tags = ground (arith, v.status_tags);
  equipment = λ slot.
      lookup-merge_equipment slot d.equipment s.equipment
      ∙ ap (prefer (lookup slot d.equipment)) (v.equipment slot);
}

named-IsLatest :
    (id : Text) (ds : List (Text × Delta)) (s : Snapshot) → IsLatest ds s → IsLatest ds (named id s)
named-IsLatest id ds s v =
    if_cases (IsLatest ds) (text_eq id []) (λ e. v)
      (λ e. record {
        location = v.location;
        prompt = v.prompt;
        status_tags = v.status_tags;
        equipment = v.equipment;
      })

pub empty-IsLatest : (id : Text) → IsLatest [] (empty_snapshot id)
unfolding latest lookup
empty-IsLatest id = record {
  location = refl;
  prompt = refl;
  status_tags = refl;
  equipment = λ slot. refl;
}

-- The items may be held in another order.
pub IsLatest-same :
    (ds : List (Text × Delta)) (s r : Snapshot)
    → r.location ≡ s.location
    → r.prompt ≡ s.prompt
    → r.status_tags ≡ s.status_tags
    → ((k : Text) → lookup k r.equipment ≡ lookup k s.equipment)
    → IsLatest ds s
    → IsLatest ds r
IsLatest-same ds s r l p g e v = record {
  location = l ∙ v.location;
  prompt = p ∙ v.prompt;
  status_tags = g ∙ v.status_tags;
  equipment = λ k. e k ∙ v.equipment k;
}

-- An empty delta has no value to be the latest.
pub IsLatest-empty :
    (id : Text) (d : Delta) (ds : List (Text × Delta)) (s : Snapshot)
    → is_empty d ≡ true
    → IsLatest ds s
    → IsLatest ((id, d) ∷ ds) s
unfolding is_empty latest lookup
IsLatest-empty id d ds s h v = record {
  location = ground (arith, v.location);
  prompt = ground (arith, v.prompt);
  status_tags = ground (arith, v.status_tags);
  equipment = λ k. ground (arith, v.equipment k);
}

snapshot-IsLatest : (ds : List (Text × Delta)) → IsLatest ds (upsert_all ds).snapshot
unfolding upsert_all upsert_delta
snapshot-IsLatest [] = empty-IsLatest []
snapshot-IsLatest ((id, d) ∷ []) =
    named-IsLatest id _ _ (merge-IsLatest id d [] (empty_snapshot id) (empty-IsLatest id))
snapshot-IsLatest ((id, d) ∷ x ∷ ds) =
    named-IsLatest id _ _ (merge-IsLatest id d (x ∷ ds) _ (snapshot-IsLatest (x ∷ ds)))

found_after : (ds : List (Text × Delta)) → (upsert_all ds).found ≡ not (is_nil ds)
unfolding upsert_all upsert_delta
found_after [] = refl
found_after (x ∷ ds) = refl

-- After any history of deltas the store in memory returns nothing if there was none, and else a
-- snapshot in which the location, the prompt, the tags and the item of every slot are each the one of
-- the latest delta that has one: later deltas that leave it open do not touch it.
pub upsert_all-IsLatest :
    (ds : List (Text × Delta))
    → (get_latest (upsert_all ds) ≡ (if is_nil ds then none else some (upsert_all ds).snapshot))
      × IsLatest ds (upsert_all ds).snapshot
unfolding get_latest
upsert_all-IsLatest ds = (ground (arith, found_after ds), snapshot-IsLatest ds)

-- A delta that Empty tells from others changes nothing of a snapshot, so that skipping it loses
-- nothing.
merge_snapshot-is_empty : (d : Delta) (s : Snapshot) → is_empty d ≡ true → merge_snapshot d s ≡ s
unfolding is_empty merge_snapshot merge_equipment
merge_snapshot-is_empty d s h = ground arith
