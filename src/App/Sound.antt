-- ===== src/App/Sound.antt =====
-- The invariant of the whole gateway, over all interleavings of its goroutines.
use arda_wed_gateway.Base.{ℕ, ◌≡◌, refl, sym, subst, Option, none, some, List, [], ◌∷◌, ◌++◌}
use arda_wed_gateway.Base.Text.{Text, codes}
use arda_wed_gateway.Base.Word.{pos}
use arda_wed_gateway.Config.{Config, positive_or}
use arda_wed_gateway.State.Service.{StateService}
use arda_wed_gateway.Suggestions.Joined.{
  IsJoined, new-IsJoined, take-IsJoined, fire-IsJoined, begin-IsJoined, end-IsJoined,
}
use arda_wed_gateway.Gateway.Hub.Registry
use arda_wed_gateway.Gateway.Hub.Pumped.{take_event-IsValid}
use arda_wed_gateway.Gateway.Telnet.{TelnetFilter}
use arda_wed_gateway.Gateway.Manager.{Clock, Manager, Effect, closes, writes, on_terminal}
use arda_wed_gateway.Gateway.Manager.Disconnect.{failure}
use arda_wed_gateway.Gateway.Manager.History.{take_bytes-IsValid, handle-IsValid, start-IsValid}
use arda_wed_gateway.Gateway.Manager.Invariant.{IsValid}
use arda_wed_gateway.Gateway.Manager.Rounds.{round_end, read_round}
use arda_wed_gateway.Gateway.Manager.Sends.{worker_tick-IsValid}
use arda_wed_gateway.Gateway.Manager.Upstream.{
  Round, deadline_fails, reads, Next, goes_on, ends, reports, next_of, take_bytes,
}
use arda_wed_gateway.Http.Router.{Router, new_router, take_terminal, take_effects, size_of}
use arda_wed_gateway.Http.Terminal.{close_terminal}
use arda_wed_gateway.App.{Platform, Reader, App, Request, serve}
use arda_wed_gateway.App.Served.{handle-IsServed}
use arda_wed_gateway.App.Steps.{
  new_app, reader_at, pass_on, read_by, tick, leave, pump, fire_in, begin_in, end_in, Step, serves,
  ticks, leaves, pumps, fires, begins, Reach, here, next,
}
use arda_wed_gateway.App.Steps

round_end-IsValid :
    (id : Text) (clock : Clock) (n : Next) (s : TelnetFilter × Manager)
    → IsValid s.1
    → IsValid (round_end id clock n s).1
unfolding round_end
round_end-IsValid id clock goes_on s v = v
round_end-IsValid id clock ends s v = v
round_end-IsValid id clock (reports err) s v = handle-IsValid id err clock s.1 v

pub read_round-IsValid :
    (decoder : List ℕ → Option Text) (id : Text) (clock : Clock) (r : Round) (f : TelnetFilter)
    (m : Manager)
    → IsValid m
    → IsValid (read_round decoder id clock r f m).1
unfolding read_round
read_round-IsValid decoder id clock (deadline_fails message) f m v =
    handle-IsValid id (failure (codes "set read deadline failed: " ++ message)) clock m v
read_round-IsValid decoder id clock (reads bytes err) f m v =
    round_end-IsValid id clock (next_of err) (take_bytes decoder id clock bytes f m)
      (take_bytes-IsValid decoder id clock bytes f m v)

-- The invariant reads none of the effects.
with_effects : (es : List Effect) (m : Manager) → IsValid m → IsValid (record m { effects = es })
with_effects es m v = record { session_ok = v.session_ok; hub_ok = v.hub_ok }

-- The manager is in order, and so are the timers, the jobs and the suggestion that is shown.
pub record IsSound {ℓ} {S : Type ℓ} (a : App S) : Type ℓ where
  pub manager_ok : IsValid a.router.manager
  pub joined : IsJoined a.begun a.router.suggestions

module _ {ℓ κ} {S : Type ℓ} {M : Type κ} (service : StateService S M) (p : Platform) where
  pub effects-manager :
      (now : M) (es : List Effect) (r : Router S)
      → (take_effects (service.upsert now) p.lower p.aliases es r).manager ≡ r.manager
  unfolding take_effects take_terminal
  effects-manager now [] r = refl
  effects-manager now (closes conn ∷ es) r = effects-manager now es r
  effects-manager now (writes conn bytes ∷ es) r = effects-manager now es r
  effects-manager now (on_terminal id text ∷ es) r = effects-manager now es r

  effects-IsJoined :
      (now : M) (begun : List (Text × ℕ)) (es : List Effect) (r : Router S)
      → IsJoined begun r.suggestions
      → IsJoined begun (take_effects (service.upsert now) p.lower p.aliases es r).suggestions
  unfolding take_effects take_terminal
  effects-IsJoined now begun [] r v = v
  effects-IsJoined now begun (closes conn ∷ es) r v = effects-IsJoined now begun es r v
  effects-IsJoined now begun (writes conn bytes ∷ es) r v = effects-IsJoined now begun es r v
  effects-IsJoined now begun (on_terminal id text ∷ es) r v =
      take-IsJoined p.decode begun id text _ (effects-IsJoined now begun es r v)

  read_by-IsSound :
      (o : Option Reader) (n : ℕ) (round : Round) (clock : Clock) (now : M) (a : App S)
      → IsSound a
      → IsSound (read_by service p o n round clock now a)
  unfolding read_by pass_on
  read_by-IsSound none n round clock now a v = v
  read_by-IsSound (some rd) n round clock now a v =
      let (left, m) =
        read_round p.charset.decoder rd.session_id clock round rd.filter
          (record a.router.manager { effects = [] }) in
      let w : IsValid m =
        read_round-IsValid p.charset.decoder rd.session_id clock round rd.filter _
          (with_effects [] a.router.manager v.manager_ok) in
      record {
        manager_ok =
            subst IsValid (sym (effects-manager now m.effects _))
              (with_effects (m.effects ++ a.router.manager.effects) m w);
        joined = effects-IsJoined now a.begun m.effects _ v.joined;
      }

  serve-IsSound :
      (id_stamp : Text) (clock : Clock) (request : Request M) (a : App S)
      → IsSound a
      → IsSound (serve service p id_stamp clock request a).0
  unfolding serve
  serve-IsSound id_stamp clock request a v =
      let s = handle-IsServed service p _ clock request (record a.router { counter = _ }) in
      record {
        manager_ok = s.follows.valid v.manager_ok;
        joined = subst (IsJoined a.begun) (sym s.suggestions_stay) v.joined;
      }

  Step-IsSound : {a b : App S} → Step service p a b → IsSound a → IsSound b
  unfolding tick leave close_terminal pump fire_in begin_in end_in
  Step-IsSound {a} (serves id_stamp clock request) v = serve-IsSound id_stamp clock request a v
  Step-IsSound {a} (Steps.reads n round clock now) v =
      read_by-IsSound (reader_at n a.readers) n round clock now a v
  Step-IsSound {a} (ticks outcome elapsed clock) v = record {
    manager_ok =
        worker_tick-IsValid p.charset.encoder outcome elapsed clock a.router.manager v.manager_ok;
    joined = v.joined;
  }
  Step-IsSound {a} (leaves i) v = record {
    manager_ok = record {
      session_ok = v.manager_ok.session_ok;
      hub_ok =
          Registry.remove-IsValid i a.router.manager.metrics a.router.manager.hub
            v.manager_ok.hub_ok;
    };
    joined = v.joined;
  }
  Step-IsSound {a} (pumps i) v = record {
    manager_ok = record {
      session_ok = v.manager_ok.session_ok;
      hub_ok =
          take_event-IsValid i a.router.manager.metrics a.router.manager.hub v.manager_ok.hub_ok;
    };
    joined = v.joined;
  }
  Step-IsSound {a} (fires id) v = record {
    manager_ok = v.manager_ok;
    joined = fire-IsJoined a.begun id a.router.suggestions v.joined;
  }
  Step-IsSound {a} (begins now reason id seq time started fresh) v = record {
    manager_ok = v.manager_ok;
    joined =
        begin-IsJoined p.decode a.begun (service.load now a.router.state) reason id seq time
          a.router.suggestions fresh v.joined;
  }
  Step-IsSound {a} (Steps.ends answer id seq time stamp active) v = record {
    manager_ok = v.manager_ok;
    joined = end-IsJoined p.decode a.begun answer id seq time stamp a.router.suggestions v.joined;
  }

  -- In every order of requests, rounds of the readers, ticks of the worker, closing clients, ends of
  -- debounces, and jobs that begin or end, each of them whole: the manager is in order, so that no
  -- broadcast panics; each session's timer is that of its latest text, and once it fired the job of
  -- this text was started; the number of requests in flight is that of the jobs under way, each of
  -- which began; and a suggestion that is shown has a command, no command that is empty or has white
  -- space at its ends, and a reason and an expected outcome that are not blank.
  pub Reach-IsSound :
      {cfg : Config} {state : S} {a : App S} → Reach service p cfg state a → IsSound a
  unfolding new_app new_router
  Reach-IsSound {cfg} here = record {
    manager_ok = start-IsValid (size_of (positive_or (pos 20) (some cfg.queue_max_depth)));
    joined = new-IsJoined cfg.suggest_debounce (size_of cfg.suggest_recent_lines);
  }
  Reach-IsSound (next r st) = Step-IsSound st (Reach-IsSound r)
