-- ===== src/Gateway/Manager/Invariant.antt =====
-- The manager's invariant, kept by every call that nothing interrupts.
use arda_wed_gateway.Base.{
  ℕ, ◌≡◌, ◌≤◌, refl, sym, ap, ◌∙◌, subst, Bool, true, false, Option, none, some, [], arith, length,
}
use arda_wed_gateway.Base.Word.{add64}
use arda_wed_gateway.Gateway.Event.{TerminalEvent}
use arda_wed_gateway.Gateway.Hub.Registry
use arda_wed_gateway.Gateway.Hub.Registry.{registered_count}
use arda_wed_gateway.Gateway.Hub.Delivery.{broadcast-find}
use arda_wed_gateway.Gateway.Hub.{Hub}
use arda_wed_gateway.Gateway.Metrics.{Metrics}
use arda_wed_gateway.Gateway.Manager.{
  Session, Manager, session_name, new_session, broadcast, ensure_from, ensure_session,
}

abbrev pub is_some {ℓ} : {A : Type ℓ} → Option A → Bool
is_some none = false
is_some (some a) = true

-- A session that is connected has a connection and a queue with a worker; one that is not has
-- neither, and no command waits. Its queue is bounded, and it is the first session.
pub record IsSession (max : ℕ) (s : Session) : Type 0 where
  pub named : s.id ≡ session_name 1
  pub queue_named : s.queue.session_id ≡ s.id
  pub limit : s.queue.max_depth ≡ max
  pub bounded : length s.queue.commands ≤ max
  pub linked : s.queue.running ≡ s.connected
  pub held : is_some s.conn ≡ s.connected
  pub quiet : s.connected ≡ false → s.queue.commands ≡ []

abbrev pub SessionOk : ℕ → ℕ → Option Session → Type 0
SessionOk max seq none = seq ≡ 0
SessionOk max seq (some s) = (seq ≡ 1) × IsSession max s

pub record IsValid (m : Manager) : Type 0 where
  pub session_ok : SessionOk m.queue_max_depth m.session_seq m.session
  pub hub_ok : Registry.IsValid m.metrics m.hub

-- The hub's invariant reads one counter only.
pub hub_counter :
    (m m' : Metrics) (h : Hub)
    → m'.ws_connections ≡ m.ws_connections
    → Registry.IsValid m h
    → Registry.IsValid m' h
hub_counter m m' h e v = record {
  fresh = v.fresh;
  sound = v.sound;
  gauge = e ∙ v.gauge;
  alive = v.alive;
}

pub broadcast-IsValid : (e : TerminalEvent) (m : Manager) → IsValid m → IsValid (broadcast e m)
unfolding broadcast
broadcast-IsValid e m v = record {
  session_ok = v.session_ok;
  hub_ok = (broadcast-find e _ m.hub (hub_counter m.metrics _ m.hub refl v.hub_ok)).0;
}

-- What ensureSessionLocked returns.
pub record Ensured (m : Manager) (s : Session) (m1 : Manager) : Type 0 where
  pub session : IsSession m1.queue_max_depth s
  pub stored : m1.session ≡ some s
  pub valid : IsValid m1
  pub limit : m1.queue_max_depth ≡ m.queue_max_depth
  pub seq : m1.session_seq ≡ 1

ensure_first :
    (now : ℕ) (m : Manager)
    → m.session_seq ≡ 0
    → Registry.IsValid m.metrics m.hub
    → Ensured m (ensure_from none now m).0 (ensure_from none now m).1
unfolding ensure_from
ensure_first now m z h = record {
  session = fresh;
  stored = refl;
  valid = record { session_ok = (omega arith, fresh); hub_ok = h };
  limit = refl;
  seq = omega arith;
}
  where
    fresh : IsSession m.queue_max_depth (new_session (add64 m.session_seq 1) m.queue_max_depth now)
    fresh = record {
      named = ap (λ n. session_name (add64 n 1)) z;
      queue_named = refl;
      limit = refl;
      bounded = omega arith;
      linked = refl;
      held = refl;
      quiet = λ e. refl;
    }

ensure_known :
    (now : ℕ) (m : Manager) (s : Session) → m.session ≡ some s → IsValid m → Ensured m s m
ensure_known now m s e v =
    let ok : SessionOk m.queue_max_depth m.session_seq (some s) =
      subst (SessionOk m.queue_max_depth m.session_seq) e v.session_ok in
    record { session = ok.1; stored = e; valid = v; limit = refl; seq = ok.0 }

ensure_cases :
    (now : ℕ) (m : Manager) (o : Option Session)
    → m.session ≡ o
    → IsValid m
    → Ensured m (ensure_from o now m).0 (ensure_from o now m).1
ensure_cases now m none e v =
    ensure_first now m (subst (SessionOk m.queue_max_depth m.session_seq) e v.session_ok) v.hub_ok
ensure_cases now m (some s) e v = unfold ensure_from in ensure_known now m s e v

pub ensure-Ensured :
    (now : ℕ) (m : Manager)
    → IsValid m
    → Ensured m (ensure_session now m).0 (ensure_session now m).1
unfolding ensure_session
ensure-Ensured now m v = ensure_cases now m m.session refl v

-- A call that puts a session in order in the place of the present one.
pub with_session :
    (s : Session) (m m' : Manager)
    → m'.session ≡ some s
    → m'.session_seq ≡ 1
    → IsSession m'.queue_max_depth s
    → m'.hub ≡ m.hub
    → m'.metrics.ws_connections ≡ m.metrics.ws_connections
    → Registry.IsValid m.metrics m.hub
    → IsValid m'
with_session s m m' e q ok h c v = record {
  session_ok = subst (SessionOk m'.queue_max_depth m'.session_seq) (sym e) (q, ok);
  hub_ok = subst (Registry.IsValid m'.metrics) (sym h) (hub_counter m.metrics m'.metrics m.hub c v);
}
