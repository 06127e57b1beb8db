-- ===== src/App/Served.antt =====
-- What a request changes: the manager, by its calls, and nothing of the store and the suggestions.
use arda_wed_gateway.Base.{ℕ, ◌≡◌, refl, true, Option, none, some, [], if_cases, ◌||◌, not}
use arda_wed_gateway.Base.Text.{Text, codes}
use arda_wed_gateway.Base.Text.Space.{is_blank}
use arda_wed_gateway.State.Service.{StateService}
use arda_wed_gateway.Gateway.Hub
use arda_wed_gateway.Gateway.Manager.{Clock, Manager}
use arda_wed_gateway.Gateway.Manager.Invariant.{IsValid}
use arda_wed_gateway.Gateway.Manager.Keeps.{connect-IsValid, disconnect-IsValid, status-IsValid}
use arda_wed_gateway.Gateway.Manager.Sends.{enqueue-IsValid}
use arda_wed_gateway.Gateway.Manager.Disconnect.{manual_disconnect}
use arda_wed_gateway.Gateway.Manager.Commands.{build_status_event}
use arda_wed_gateway.Gateway.Manager.Texts.{
  texts, status-texts, connect-texts, disconnect-texts, enqueue-texts,
}
use arda_wed_gateway.Http.Session.{
  SessionConnectRequest, not_positive, handle_session_connect, handle_session_disconnect,
  handle_session_status, handle_enqueue_command,
}
use arda_wed_gateway.Http.Attached.{attach-IsValid}
use arda_wed_gateway.Http.Terminal.{
  UpgradeRequest, Hijacking, unsupported, hijack_fails, upgrade_fails, upgraded, nobody, attach,
  join_hub, tell, take_over, asks_upgrade, open_terminal,
}
use arda_wed_gateway.Http.Router.{Router}
use arda_wed_gateway.App.{
  Platform, Request, get_health, get_session_status, get_suggestions_latest,
  post_suggestions_cancel, post_session_disconnect, get_metrics, get_state_snapshot,
  post_session_connect, post_commands_enqueue, get_terminal_websocket, handle,
}

-- A manager that calls turned into another, none of them the reader's.
pub record Follows (m n : Manager) : Type 0 where
  pub valid : IsValid m → IsValid n
  pub texts_stay : texts n.effects ≡ texts m.effects

stays : (m : Manager) → Follows m m
stays m = record { valid = λ v. v; texts_stay = refl }

status-Follows :
    (f : ℕ → Text) (id : Text) (clock : Clock) (m : Manager)
    → Follows m (handle_session_status f id clock m).0
unfolding handle_session_status
status-Follows f id clock m = record {
  valid = status-IsValid clock m;
  texts_stay = status-texts clock m;
}

connect-Follows :
    (f : ℕ → Text) (id : Text) (body : Option SessionConnectRequest) (dialed : Option ℕ)
    (clock : Clock) (m : Manager)
    → Follows m (handle_session_connect f id body dialed clock m).0
unfolding handle_session_connect
connect-Follows f id none dialed clock m = stays m
connect-Follows f id (some req) dialed clock m =
    if_cases (λ (r : Manager × _). Follows m r.0) (is_blank req.host || not_positive req.port)
      (λ e. stays m)
      (λ e. record {
        valid = connect-IsValid dialed req.host req.port clock m;
        texts_stay = connect-texts dialed req.host req.port clock m;
      })

disconnect-Follows :
    (f : ℕ → Text) (id : Text) (clock : Clock) (m : Manager)
    → Follows m (handle_session_disconnect f id clock m).0
unfolding handle_session_disconnect
disconnect-Follows f id clock m = record {
  valid =
      unfold manual_disconnect in disconnect-IsValid [] (codes "manual disconnect") true clock m;
  texts_stay = disconnect-texts clock m;
}

enqueue-Follows :
    (id : Text) (body : Option Text) (clock : Clock) (m : Manager)
    → Follows m (handle_enqueue_command id body clock m).0
unfolding handle_enqueue_command
enqueue-Follows id none clock m = stays m
enqueue-Follows id (some command) clock m = record {
  valid = enqueue-IsValid command clock m;
  texts_stay = enqueue-texts command clock m;
}

attach-Follows : (clock : Clock) (m : Manager) → Follows m (attach nobody clock m).0
attach-Follows clock m = record {
  valid = λ v. attach-IsValid clock m v;
  texts_stay =
      unfold attach build_status_event join_hub tell in
      status-texts clock
        (record m { metrics = (Hub.add m.metrics m.hub).0; hub = (Hub.add m.metrics m.hub).1 });
}

take_over-Follows :
    (id : Text) (outcome : Hijacking) (clock : Clock) (m : Manager)
    → Follows m (take_over nobody id outcome clock m).0
unfolding take_over
take_over-Follows id unsupported clock m = stays m
take_over-Follows id hijack_fails clock m = stays m
take_over-Follows id upgrade_fails clock m = stays m
take_over-Follows id upgraded clock m = attach-Follows clock m

open-Follows :
    (lower : Text → Text) (id : Text) (req : UpgradeRequest) (outcome : Hijacking) (clock : Clock)
    (m : Manager)
    → Follows m (open_terminal nobody lower id req outcome clock m).0
unfolding open_terminal
open-Follows lower id req outcome clock m =
    if_cases (λ (r : Manager × _). Follows m r.0) (not (asks_upgrade lower req)) (λ e. stays m)
      (λ e.
        if_cases (λ (r : Manager × _). Follows m r.0) (is_blank req.key) (λ e. stays m)
          (λ e. take_over-Follows id outcome clock m))

-- A router that a request turned into another.
pub record IsServed {ℓ} {S : Type ℓ} (r s : Router S) : Type ℓ where
  pub follows : Follows r.manager s.manager
  pub state_stays : s.state ≡ r.state
  pub suggestions_stay : s.suggestions ≡ r.suggestions

manager_only {ℓ} :
    {S : Type ℓ} (r : Router S) (m : Manager)
    → Follows r.manager m
    → IsServed r (record r { manager = m })
manager_only r m f = record { follows = f; state_stays = refl; suggestions_stay = refl }

module _ {ℓ κ} {S : Type ℓ} {M : Type κ} (service : StateService S M) (p : Platform) where
  pub handle-IsServed :
      (id : Text) (clock : Clock) (request : Request M) (r : Router S)
      → IsServed r (handle service p id clock request r).0
  unfolding handle
  handle-IsServed id clock get_health r = manager_only r _ (stays r.manager)
  handle-IsServed id clock get_session_status r =
      manager_only r _ (status-Follows p.format_time id clock r.manager)
  handle-IsServed id clock get_suggestions_latest r = manager_only r _ (stays r.manager)
  handle-IsServed id clock post_suggestions_cancel r = manager_only r _ (stays r.manager)
  handle-IsServed id clock post_session_disconnect r =
      manager_only r _ (disconnect-Follows p.format_time id clock r.manager)
  handle-IsServed id clock get_metrics r = manager_only r _ (stays r.manager)
  handle-IsServed id clock (get_state_snapshot now) r = manager_only r _ (stays r.manager)
  handle-IsServed id clock (post_session_connect body dialed) r =
      manager_only r _ (connect-Follows p.format_time id body dialed clock r.manager)
  handle-IsServed id clock (post_commands_enqueue body) r =
      manager_only r _ (enqueue-Follows id body clock r.manager)
  handle-IsServed id clock (get_terminal_websocket req outcome) r =
      manager_only r _ (open-Follows p.lower id req outcome clock r.manager)
