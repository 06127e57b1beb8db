-- ===== src/App/Fits.antt =====
-- The properties of the payloads against the schemas of the API description.
use arda_wed_gateway.Base.{
  ◌≡◌, refl, ap, Bool, true, false, Option, none, some, [], ◌∷◌, ◌++◌, if_cases, arith,
}
use arda_wed_gateway.Base.Text.{Text, codes, text_eq}
use arda_wed_gateway.State.{PromptTuple, Snapshot, is_nil}
use arda_wed_gateway.Suggestions.{Suggestion}
use arda_wed_gateway.Http.Response.{text, texts, flag, Fields, SessionStatusPayload}
use arda_wed_gateway.Http.Encoded.{
  Kind, string, integer, boolean, strings, string_map, Properties, omit_empty,
  session_status_properties, prompt_properties, snapshot_properties, kind_of, fields_properties,
}
use arda_wed_gateway.Http.Views.{RuntimeStatus, error_fields, suggestion_fields}
use arda_wed_gateway.App.Contract.{
  session_status_payload, state_snapshot_or_empty, suggestion_latest, Description, described,
  is_described, all_described, fits,
}

last_activity-fits :
    (b : Bool) (p : SessionStatusPayload)
    → let ps : Properties =
        (codes "session_id", string)
        ∷ (codes "connected", boolean)
        ∷ (codes "queue_depth", integer)
        ∷ (codes "queue_max", integer)
        ∷ omit_empty b (codes "last_activity_at") string in
      fits (described session_status_payload) ps ≡ true
unfolding fits described text_eq
last_activity-fits true p = refl
last_activity-fits false p = refl

pub session_status-fits :
    (p : SessionStatusPayload)
    → fits (described session_status_payload) (session_status_properties p) ≡ true
unfolding session_status_properties
session_status-fits p = last_activity-fits (text_eq p.last_activity_at []) p

all_described-append :
    (ds : Description) (ps qs : Properties)
    → all_described ds ps ≡ true
    → all_described ds qs ≡ true
    → all_described ds (ps ++ qs) ≡ true
all_described-append ds [] qs a b = b
all_described-append ds ((key, kind) ∷ ps) qs a b = ground (arith, all_described-append ds ps qs)

-- A property that may be left out is described if it is when it is there.
omitted-described :
    (ds : Description) (b : Bool) (key : Text) (kind : Kind)
    → is_described ds key kind ≡ true
    → all_described ds (omit_empty b key kind) ≡ true
omitted-described ds true key kind h = refl
omitted-described ds false key kind h = ground arith

prompt-described :
    (o : Option PromptTuple)
    → all_described (described state_snapshot_or_empty) (prompt_properties o) ≡ true
unfolding described text_eq
prompt-described none = refl
prompt-described (some p) = refl

-- A snapshot has described properties only, and all are optional.
pub snapshot-fits :
    (s : Snapshot) → fits (described state_snapshot_or_empty) (snapshot_properties s) ≡ true
unfolding fits described snapshot_properties text_eq
snapshot-fits s =
    let ds : Description = described state_snapshot_or_empty in
    let all : all_described ds (snapshot_properties s) ≡ true =
      unfold snapshot_properties in
      all_described-append ds (omit_empty (text_eq s.location []) (codes "location") string) _
        (omitted-described ds _ (codes "location") string refl)
        (all_described-append ds (prompt_properties s.prompt) _ (prompt-described s.prompt) (
          all_described-append ds (omit_empty (is_nil s.status_tags) (codes "status_tags") strings)
            _ (omitted-described ds _ (codes "status_tags") strings refl)
            (all_described-append ds
              (omit_empty (is_nil s.equipment) (codes "equipment") string_map) _
              (omitted-described ds _ (codes "equipment") string_map refl)
              (omitted-described ds _ (codes "updated_at") string refl)))) in
    rw all refl

pub fits_nothing : (ps : Properties) → fits [] ps ≡ is_nil ps
unfolding fits
fits_nothing [] = refl
fits_nothing (p ∷ ps) = refl

fields_properties-append :
    (fs gs : Fields) → fields_properties (fs ++ gs) ≡ fields_properties fs ++ fields_properties gs
fields_properties-append [] gs = refl
fields_properties-append ((key, v) ∷ fs) gs =
    ap (λ l. (key, kind_of v) ∷ l) (fields_properties-append fs gs)

-- The optional properties of the latest suggestion.
abbrev IsDescribed : Fields → Type 0
IsDescribed fs = all_described (described suggestion_latest) (fields_properties fs) ≡ true

error_fields-IsDescribed : (st : RuntimeStatus) → IsDescribed (error_fields st)
error_fields-IsDescribed st =
    if_cases IsDescribed (text_eq st.last_error []) (λ e. refl)
      (λ e. unfold text_eq described in refl)

suggestion_fields-IsDescribed : (o : Option Suggestion) → IsDescribed (suggestion_fields o)
unfolding suggestion_fields text_eq described
suggestion_fields-IsDescribed none = refl
suggestion_fields-IsDescribed (some s) =
    if_cases
      (λ fs. IsDescribed (
        (codes "commands", texts s.commands)
        ∷ (codes "reason", text s.reason)
        ∷ (codes "expected_outcome", text s.expected_outcome)
        ∷ fs))
      (text_eq s.generated_at []) (λ e. refl) (λ e. refl)

latest-IsDescribed :
    (st : RuntimeStatus) (o : Option Suggestion)
    → IsDescribed (error_fields st ++ suggestion_fields o)
latest-IsDescribed st o = rw (fields_properties-append (error_fields st) (suggestion_fields o)) (
    all_described-append (described suggestion_latest) (fields_properties (error_fields st))
      (fields_properties (suggestion_fields o)) (error_fields-IsDescribed st)
      (suggestion_fields-IsDescribed o))

-- The one required property is the first.
in_progress-fits :
    (b : Bool) (fs : Fields)
    → IsDescribed fs
    → fits (described suggestion_latest) (fields_properties ((codes "in_progress", flag b) ∷ fs))
      ≡ true
unfolding fits described text_eq
in_progress-fits b fs h = rw h refl

pub latest-fits :
    (st : RuntimeStatus) (o : Option Suggestion)
    → fits (described suggestion_latest) (
        fields_properties
          ((codes "in_progress", flag st.in_progress) ∷ (error_fields st ++ suggestion_fields o)))
      ≡ true
latest-fits st o = in_progress-fits st.in_progress _ (latest-IsDescribed st o)
