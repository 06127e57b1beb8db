-- ===== src/App/Fed.antt =====
-- What the store, the recent lines and the prompts are made of: the texts that the readers showed.
use arda_wed_gateway.Base.{
  ℕ, ◌≡◌, ◌<◌, ◌∙◌, sym, ap, subst, Option, none, some, List, [], ◌∷◌, ◌++◌,
}
use arda_wed_gateway.Base.Map.{lookup}
use arda_wed_gateway.Base.Text.{Text}
use arda_wed_gateway.State.Parser.Parse.{ingest}
use arda_wed_gateway.State.Service.{StateService}
use arda_wed_gateway.Suggestions.{Service, recent_of, lines_or_nil, ingest_terminal}
use arda_wed_gateway.Suggestions.Joined.{taken-service}
use arda_wed_gateway.Suggestions.Joined.Log.{SameLog}
use arda_wed_gateway.Suggestions.Recent.{last_lines, all_lines, ingest_step, ingest-max}
use arda_wed_gateway.Gateway.Manager.{Clock, Manager, Effect, closes, writes, on_terminal}
use arda_wed_gateway.Gateway.Manager.Rounds.{read_round}
use arda_wed_gateway.Gateway.Manager.Texts.{texts, texts-append}
use arda_wed_gateway.Gateway.Manager.Upstream.{Round}
use arda_wed_gateway.Http.Router.{Router, take_terminal, take_effects}
use arda_wed_gateway.App.{Platform, Reader, App}
use arda_wed_gateway.App.Sound.{effects-manager}
use arda_wed_gateway.App.Steps.{pass_on, read_by}

-- A service that holds the last lines of these texts.
pub record IsLogged (max : ℕ) (l : List (Text × Text)) (s : Service) : Type 0 where
  pub limit : s.recent_lines_max ≡ max
  pub recent : (id : Text) → recent_of id s ≡ last_lines max (all_lines id l)

ingest-IsLogged :
    (max : ℕ) (l : List (Text × Text)) (id text : Text) (s : Service)
    → 0 < max
    → IsLogged max l s
    → IsLogged max ((id, text) ∷ l) (ingest_terminal id text s)
unfolding all_lines
ingest-IsLogged max l id text s h v = record {
  limit = ingest-max id text s ∙ v.limit;
  recent = λ i. ingest_step max i id text (all_lines i l) s h v.limit (v.recent i);
}

same-IsLogged :
    (max : ℕ) (l : List (Text × Text)) (s t : Service)
    → SameLog s t
    → IsLogged max l s
    → IsLogged max l t
unfolding recent_of
same-IsLogged max l s t e v = record {
  limit = e.limit ∙ v.limit;
  recent = λ id. ap (λ m. lines_or_nil (lookup id m)) e.lines ∙ v.recent id;
}

module _ {ℓ κ} {S : Type ℓ} {M : Type κ} (service : StateService S M) (p : Platform) where
  -- A store to which Ingest took these texts in turn, the latest first, whatever it met outside.
  pub data IsIngested (state : S) : List (Text × Text) → S → Type (ℓ ⊔ κ) where
    none_yet : IsIngested state [] state
    took :
        {l : List (Text × Text)} {s : S} (now : M) (id text : Text)
        → IsIngested state l s
        → IsIngested state
            ((id, text) ∷ l)
            (ingest (service.upsert now) p.lower p.aliases id text s).0

  -- The texts that the manager handed on are those that the store and the lines are made of.
  pub record IsFed (max : ℕ) (state : S) (r : Router S) : Type (ℓ ⊔ κ) where
    pub stored : IsIngested state (texts r.manager.effects) r.state
    pub logged : IsLogged max (texts r.manager.effects) r.suggestions.service

  -- The same, of a router whose manager handed on these texts.
  record Took (max : ℕ) (state : S) (l : List (Text × Text)) (r : Router S) : Type (ℓ ⊔ κ) where
    pub stored : IsIngested state l r.state
    pub logged : IsLogged max l r.suggestions.service

  effects-Took :
      (max : ℕ) (state : S) (now : M) (l : List (Text × Text)) (es : List Effect) (r : Router S)
      → 0 < max
      → Took max state l r
      → Took max state (texts es ++ l) (take_effects (service.upsert now) p.lower p.aliases es r)
  unfolding take_effects take_terminal texts
  effects-Took max state now l [] r h v = v
  effects-Took max state now l (closes conn ∷ es) r h v = effects-Took max state now l es r h v
  effects-Took max state now l (writes conn bytes ∷ es) r h v =
      effects-Took max state now l es r h v
  effects-Took max state now l (on_terminal id text ∷ es) r h v =
      let w = effects-Took max state now l es r h v in
      let d = (take_effects (service.upsert now) p.lower p.aliases es r).suggestions in
      record {
        stored = took now id text w.stored;
        logged =
            subst (IsLogged max ((id, text) ∷ (texts es ++ l))) (sym (taken-service id text d))
              (ingest-IsLogged max (texts es ++ l) id text d.service h w.logged);
      }

  pass_on-IsFed :
      (max : ℕ) (state : S) (now : M) (m : Manager) (r : Router S)
      → 0 < max
      → IsFed max state r
      → IsFed max state (pass_on service p now m r)
  unfolding pass_on
  pass_on-IsFed max state now m r h v =
      let es : List Effect = m.effects ++ r.manager.effects in
      let start : Router S = record r { manager = record m { effects = es } } in
      let old : Took max state (texts r.manager.effects) start = record {
        stored = v.stored;
        logged = v.logged;
      } in
      let w = effects-Took max state now _ m.effects start h old in
      let same : texts m.effects ++ texts r.manager.effects
          ≡ texts (pass_on service p now m r).manager.effects =
        sym (texts-append m.effects r.manager.effects)
        ∙ ap (λ (n : Manager). texts n.effects)
            (sym (effects-manager service p now m.effects start)) in
      record {
        stored = subst (λ l. IsIngested state l (pass_on service p now m r).state) same w.stored;
        logged =
            subst (λ l. IsLogged max l (pass_on service p now m r).suggestions.service) same
              w.logged;
      }

  pub read_by-IsFed :
      (max : ℕ) (state : S) (o : Option Reader) (n : ℕ) (round : Round) (clock : Clock) (now : M)
      (a : App S)
      → 0 < max
      → IsFed max state a.router
      → IsFed max state (read_by service p o n round clock now a).router
  unfolding read_by
  read_by-IsFed max state none n round clock now a h v = v
  read_by-IsFed max state (some rd) n round clock now a h v =
      pass_on-IsFed max state now
        (read_round p.charset.decoder rd.session_id clock round rd.filter
          (record a.router.manager { effects = [] })).1
        a.router h v

  -- A router with the same texts, store and lines.
  pub moves :
      (max : ℕ) (state : S) (r s : Router S)
      → texts s.manager.effects ≡ texts r.manager.effects
      → s.state ≡ r.state
      → SameLog r.suggestions.service s.suggestions.service
      → IsFed max state r
      → IsFed max state s
  moves max state r s e f g v = record {
    stored =
        subst (IsIngested state (texts s.manager.effects)) (sym f)
          (subst (λ l. IsIngested state l r.state) (sym e) v.stored);
    logged =
        same-IsLogged max (texts s.manager.effects) r.suggestions.service s.suggestions.service g
          (subst (λ l. IsLogged max l r.suggestions.service) (sym e) v.logged);
  }
