-- ===== src/Gateway/Manager/Sessions.antt =====
-- Connecting, disconnecting and sending, on a session whose state is known.
use arda_wed_gateway.Base.{
  ℕ, ◌≡◌, refl, sym, ap, ◌∙◌, subst, Bool, true, false, not, ◌&&◌, Option, none, some, List, [],
  arith, length, Option-cases, inl, inr,
}
use arda_wed_gateway.Base.Text.{Text, text_eq, text_eq_refl, codes}
use arda_wed_gateway.Base.Word.{ℤ}
use arda_wed_gateway.Gateway.Queue.{start}
use arda_wed_gateway.Gateway.Manager.{
  Clock, Session, Manager, connect_locked, connect, connected_event, announce, broadcast, status_of,
  session_name,
}
use arda_wed_gateway.Gateway.Manager.Disconnect.{
  disconnect_begin, disconnect_rest, disconnect, manual_disconnect, handle_upstream_disconnect,
  ReadFailure, disconnect_reason, proceeds,
}
use arda_wed_gateway.Gateway.Manager.Invariant.{SessionOk, IsValid}

-- Whether there is a session that is connected, and the commands that wait.
abbrev pub is_connected : Option Session → Bool
is_connected none = false
is_connected (some s) = s.connected

abbrev pub waiting : Option Session → List Text
waiting none = []
waiting (some s) = s.queue.commands

-- The session after a disconnect.
pub closed_session : ℕ → Session → Session
closed_session now s = record s {
  conn = none;
  connected = false;
  last_activity = now;
  queue = record s.queue { commands = []; running = false };
}

abbrev pub closing : ℕ → Session → Session
closing now s = record s { conn = none; connected = false; last_activity = now }

pub begin_known :
    (expected : Text) (fail : Bool) (clock : Clock) (m : Manager) (s : Session)
    → m.session ≡ some s
    → s.connected ≡ true
    → (not (text_eq expected []) && not (text_eq s.id expected)) ≡ false
    → disconnect_begin expected fail clock m ≡ (
      record m { session = some (closing clock.now s) },
      proceeds (status_of (closing clock.now s)) s.conn,
    )
unfolding disconnect_begin
begin_known expected fail clock m s e c x = ground arith

-- A disconnect of a connected session, for any session or for this one by its name.
pub disconnect_known :
    (expected reason : Text) (fail : Bool) (clock : Clock) (m : Manager) (s : Session)
    → m.session ≡ some s
    → s.connected ≡ true
    → (not (text_eq expected []) && not (text_eq s.id expected)) ≡ false
    → ((disconnect expected reason fail clock m).0.session ≡ some (closed_session clock.now s))
      × ((disconnect expected reason fail clock m).1.1 ≡ length s.queue.commands)
      × ((disconnect expected reason fail clock m).1.2 ≡ none)
unfolding disconnect closed_session broadcast
disconnect_known expected reason fail clock m s e c x =
    let eq : disconnect_begin expected fail clock m ≡ _ =
      begin_known expected fail clock m s e c x in
    (
      ap (λ r. (disconnect_rest reason clock r).0.session) eq,
      ap (λ r. (disconnect_rest reason clock r).1.1) eq,
      ap (λ r. (disconnect_rest reason clock r).1.2) eq,
    )

abbrev pub opened : ℕ → Text → ℤ → ℕ → Session → Session
opened conn host port now s = record s {
  host = host;
  port = port;
  conn = some conn;
  connected = true;
  last_activity = now;
  queue = record s.queue { running = true };
}

pub connect_locked_known :
    (conn : ℕ) (host : Text) (port : ℤ) (clock : Clock) (m : Manager) (s : Session)
    → m.session ≡ some s
    → s.connected ≡ false
    → connect_locked conn host port clock m ≡ (
      record m { session = some (opened conn host port clock.now s) },
      (status_of (opened conn host port clock.now s), none),
    )
unfolding connect_locked start
connect_locked_known conn host port clock m s e c = ground arith

pub connect_known :
    (conn : ℕ) (host : Text) (port : ℤ) (clock : Clock) (m : Manager) (s : Session)
    → m.session ≡ some s
    → s.connected ≡ false
    → ((connect (some conn) host port clock m).0.session ≡ some (opened conn host port clock.now s))
      × ((connect (some conn) host port clock m).1.1 ≡ none)
unfolding connect broadcast
connect_known conn host port clock m s e c =
    let eq : connect_locked conn host port clock m ≡ _ =
      connect_locked_known conn host port clock m s e c in
    (
      ap (λ r. (announce (connected_event host port r.1.0 clock.stamp) r).0.session) eq,
      ap (λ r. (announce (connected_event host port r.1.0 clock.stamp) r).1.1) eq,
    )

-- A disconnect of a connected session drops every command that waits and returns their number, and
-- after the next connect none of them waits: nothing is replayed on the new connection.
pub reconnect_replays_nothing :
    (c1 c2 : Clock) (conn : ℕ) (host : Text) (port : ℤ) (m : Manager)
    → is_connected m.session ≡ true
    → let closed = manual_disconnect c1 m in
      let reopened = connect (some conn) host port c2 closed.0 in
      (closed.1.1 ≡ length (waiting m.session))
      × (closed.1.2 ≡ none)
      × (is_connected closed.0.session ≡ false)
      × (reopened.1.1 ≡ none)
      × (is_connected reopened.0.session ≡ true)
      × (waiting reopened.0.session ≡ [])
unfolding manual_disconnect closed_session
reconnect_replays_nothing c1 c2 conn host port m c = elim (Option-cases m.session) [
  | inl e ↦ absurd (ground arith)
  | inr (s, e) ↦
      let (sess, n, err) =
        disconnect_known [] (codes "manual disconnect") true c1 m s e (ground arith)
          (rw (text_eq_refl [])) in
      let (sess2, err2) = connect_known conn host port c2 _ (closed_session c1.now s) sess refl in
      (
        n ∙ ap (λ o. length (waiting o)) (sym e),
        err,
        ap is_connected sess,
        err2,
        ap is_connected sess2,
        ap waiting sess2,
      )
]

-- A reader names its session, and all sessions that a manager in order ever has bear one name: a
-- reader whose connection failed ends the session also where it has been given another connection
-- since.
pub stale_reader_disconnects :
    (err : ReadFailure) (clock : Clock) (m : Manager)
    → IsValid m
    → is_connected m.session ≡ true
    → is_connected (handle_upstream_disconnect (session_name 1) err clock m).session ≡ false
unfolding handle_upstream_disconnect closed_session
stale_reader_disconnects err clock m v c = elim (Option-cases m.session) [
  | inl e ↦ absurd (ground arith)
  | inr (s, e) ↦
      let ok : SessionOk m.queue_max_depth m.session_seq (some s) =
        subst (SessionOk m.queue_max_depth m.session_seq) e v.session_ok in
      let same : (not (text_eq (session_name 1) []) && not (text_eq s.id (session_name 1)))
          ≡ false =
        rw (ok.1.named, text_eq_refl (session_name 1)) (ground arith) in
      ap is_connected
        (disconnect_known (session_name 1) (disconnect_reason err) false clock m s e (ground arith)
          same).0
]
