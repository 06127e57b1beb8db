-- ===== src/Gateway/Manager/Keeps.antt =====
-- Every whole call keeps the manager's invariant.
use arda_wed_gateway.Base.{
  ℕ, ◌≡◌, refl, sym, ◌∙◌, subst, Bool, true, false, not, ◌&&◌, Option, none, some, List, [], arith,
  Bool-cases, inl, inr,
}
use arda_wed_gateway.Base.Text.{Text, text_eq}
use arda_wed_gateway.Base.Word.{ℤ}
use arda_wed_gateway.Gateway.Event.{TerminalEvent}
use arda_wed_gateway.Gateway.Hub.Registry
use arda_wed_gateway.Gateway.Metrics.{Metrics}
use arda_wed_gateway.Gateway.Queue.{CommandQueue, start, stop_and_drop}
use arda_wed_gateway.Gateway.Manager.{
  GatewayError, Effect, Clock, Session, Manager, ensure_session, announce, status, Status,
  connect_locked, connect,
}
use arda_wed_gateway.Gateway.Manager.Disconnect.{
  disconnect_begin, disconnect_finish, disconnect_rest, disconnect, stop_session, close_conn,
  Verdict, returns, proceeds,
}
use arda_wed_gateway.Gateway.Manager.Invariant.{
  IsSession, IsValid, ensure-Ensured, with_session, broadcast-IsValid,
}

connected_session :
    (max now conn : ℕ) (host : Text) (port : ℤ) (s : Session)
    → s.connected ≡ false
    → IsSession max s
    → IsSession max (record s {
      host = host;
      port = port;
      conn = some conn;
      connected = true;
      last_activity = now;
      queue = (start s.queue).0;
    })
unfolding start
connected_session max now conn host port s e v = ground (arith, v.linked, v.quiet)

pub connect_locked-IsValid :
    (conn : ℕ) (host : Text) (port : ℤ) (clock : Clock) (m : Manager)
    → IsValid m
    → IsValid (connect_locked conn host port clock m).0
unfolding connect_locked
connect_locked-IsValid conn host port clock m v =
    let d = ensure-Ensured clock.now m v in
    let s = (ensure_session clock.now m).0 in
    let m1 = (ensure_session clock.now m).1 in
    elim (Bool-cases s.connected) [
      | inl e ↦ rw e (record { session_ok = d.valid.session_ok; hub_ok = d.valid.hub_ok })
      | inr e ↦ rw e (
          with_session _ m1 _ refl d.seq
            (connected_session m1.queue_max_depth clock.now conn host port s e d.session) refl refl
            d.valid.hub_ok)
    ]

pub status-IsValid : (clock : Clock) (m : Manager) → IsValid m → IsValid (status clock m).0
unfolding status
status-IsValid clock m v = (ensure-Ensured clock.now m v).valid

announce-IsValid :
    (e : TerminalEvent) (r : Manager × (Status × Option GatewayError))
    → IsValid r.0
    → IsValid (announce e r).0
unfolding announce
announce-IsValid e (m, (st, none)) v = broadcast-IsValid e m v
announce-IsValid e (m, (st, some err)) v = v

pub connect-IsValid :
    (dialed : Option ℕ) (host : Text) (port : ℤ) (clock : Clock) (m : Manager)
    → IsValid m
    → IsValid (connect dialed host port clock m).0
unfolding connect
connect-IsValid none host port clock m v = v
connect-IsValid (some conn) host port clock m v =
    announce-IsValid _ (connect_locked conn host port clock m)
      (connect_locked-IsValid conn host port clock m v)

-- Between the halves of a disconnect the session is closed while its queue still runs.
pub record IsClosing (m : Manager) (s : Session) : Type 0 where
  pub stored : m.session ≡ some s
  pub seq : m.session_seq ≡ 1
  pub session : IsSession m.queue_max_depth (record s { connected = true; conn = some 0 })
  pub off : s.connected ≡ false
  pub released : s.conn ≡ none
  pub hub_ok : Registry.IsValid m.metrics m.hub

-- The state that each verdict of the locked half leaves.
abbrev pub Begun : Manager × Verdict → Type 0
Begun (m, returns st err) = IsValid m
Begun (m, proceeds st conn) = (s : Session) × IsClosing m s

pub begin-Begun :
    (expected : Text) (fail : Bool) (clock : Clock) (m : Manager)
    → IsValid m
    → Begun (disconnect_begin expected fail clock m)
unfolding disconnect_begin
begin-Begun expected fail clock m v =
    let d = ensure-Ensured clock.now m v in
    let s = (ensure_session clock.now m).0 in
    elim (Bool-cases s.connected) [
      | inl e ↦ elim (Bool-cases (not (text_eq expected []) && not (text_eq s.id expected))) [
        | inl differs ↦ rw (e, differs) d.valid
        | inr same ↦
            rw (e, same)
              (
                record s { conn = none; connected = false; last_activity = clock.now },
                record {
                  stored = refl;
                  seq = d.seq;
                  session = record {
                    named = d.session.named;
                    queue_named = d.session.queue_named;
                    limit = d.session.limit;
                    bounded = d.session.bounded;
                    linked = d.session.linked ∙ e;
                    held = refl;
                    quiet = λ p. cc;
                  };
                  off = refl;
                  released = refl;
                  hub_ok = d.valid.hub_ok;
                },
              )
      ]
      | inr e ↦ rw e d.valid
    ]

stopped_session :
    (max : ℕ) (s : Session)
    → IsSession max (record s { connected = true; conn = some 0 })
    → s.connected ≡ false
    → s.conn ≡ none
    → IsSession max (record s { queue = record s.queue { commands = []; running = false } })
stopped_session max s v off released = record {
  named = v.named;
  queue_named = v.queue_named;
  limit = v.limit;
  bounded = omega arith;
  linked = sym off;
  held = rw (off, released);
  quiet = λ p. refl;
}

stop_and_drop-counter :
    (m : Metrics) (q : CommandQueue) → (stop_and_drop m q).0.ws_connections ≡ m.ws_connections
unfolding stop_and_drop
stop_and_drop-counter m q = ground arith

stop_session-IsValid :
    (l : List Effect) (m : Manager) (s : Session)
    → IsClosing m s
    → IsValid (stop_session (some s) (record m { effects = l })).0
unfolding stop_session
stop_session-IsValid l m s c =
    with_session _ m _ refl c.seq (stopped_session m.queue_max_depth s c.session c.off c.released)
      refl (stop_and_drop-counter m.metrics s.queue) c.hub_ok

pub finish-IsValid :
    (reason : Text) (st : Status) (conn : Option ℕ) (clock : Clock) (m : Manager) (s : Session)
    → IsClosing m s
    → IsValid (disconnect_finish reason st conn clock m).0
unfolding disconnect_finish
finish-IsValid reason st conn clock m s c = broadcast-IsValid _ _ (
    subst (λ o. IsValid (stop_session o (record m { effects = close_conn conn m.effects })).0)
      (sym c.stored) (stop_session-IsValid (close_conn conn m.effects) m s c))

rest-IsValid :
    (reason : Text) (clock : Clock) (r : Manager × Verdict)
    → Begun r
    → IsValid (disconnect_rest reason clock r).0
unfolding disconnect_rest
rest-IsValid reason clock (m, returns st err) b = b
rest-IsValid reason clock (m, proceeds st conn) b = finish-IsValid reason st conn clock m b.0 b.1

pub disconnect-IsValid :
    (expected reason : Text) (fail : Bool) (clock : Clock) (m : Manager)
    → IsValid m
    → IsValid (disconnect expected reason fail clock m).0
unfolding disconnect
disconnect-IsValid expected reason fail clock m v =
    rest-IsValid reason clock _ (begin-Begun expected fail clock m v)
