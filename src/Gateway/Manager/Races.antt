-- ===== src/Gateway/Manager/Races.antt =====
-- A connect between the two halves of a disconnect.
use arda_wed_gateway.Base.{
  ℕ, ◌≡◌, ◌≤◌, refl, sym, ap, ◌∙◌, Bool, true, false, Option, none, some, List, [], ◌∷◌, arith,
  length,
}
use arda_wed_gateway.Base.Text.{Text, text_eq_refl}
use arda_wed_gateway.Base.Word.{ℤ}
use arda_wed_gateway.Gateway.Queue.{new_command_queue}
use arda_wed_gateway.Gateway.Queue
use arda_wed_gateway.Gateway.Manager.{
  Clock, Session, Manager, session_already_connected, connect_locked, broadcast, status_of,
  ensure_session, ensure_from, new_session,
}
use arda_wed_gateway.Gateway.Manager.Commands.{enqueue, enqueue_answer}
use arda_wed_gateway.Gateway.Manager.Disconnect.{proceeds, disconnect_begin, disconnect_rest}
use arda_wed_gateway.Gateway.Manager.Sessions.{closing, begin_known, connect_locked_known}
use arda_wed_gateway.Gateway.Manager.Drain.{AtWork}
use arda_wed_gateway.Gateway.Manager.Delivered.{submit, submitted, submit-AtWork}

abbrev pub has_worker : Option Session → Bool
has_worker none = false
has_worker (some s) = s.queue.running

-- An Enqueue starts no worker.
enqueue-has_worker :
    (c : Text) (clock : Clock) (m : Manager)
    → has_worker m.session ≡ false
    → has_worker (enqueue c clock m).0.session ≡ false
unfolding enqueue enqueue_answer ensure_session ensure_from new_session new_command_queue broadcast
    Queue.enqueue
enqueue-has_worker c clock m h = ground arith

submit-has_worker :
    (l : List (Clock × Text)) (m : Manager)
    → has_worker m.session ≡ false
    → has_worker (submit l m).session ≡ false
unfolding submit
submit-has_worker [] m h = h
submit-has_worker ((clock, c) ∷ l) m h =
    submit-has_worker l (enqueue c clock m).0 (enqueue-has_worker c clock m h)

connect_refused :
    (conn : ℕ) (host : Text) (port : ℤ) (clock : Clock) (m : Manager) (s : Session)
    → m.session ≡ some s
    → s.connected ≡ true
    → let r = connect_locked conn host port clock m in
      (r.1.1 ≡ some session_already_connected) × (has_worker r.0.session ≡ s.queue.running)
unfolding connect_locked
connect_refused conn host port clock m s e c = ground arith

-- Whatever clients submit on a connected session without a worker waits there.
stranded :
    (conn conn2 max : ℕ) (host : Text) (port : ℤ) (clock : Clock) (l : List (Clock × Text))
    (m : Manager)
    → length l ≤ max
    → AtWork conn max [] m
    → has_worker m.session ≡ false
    → let later = submit l m in
      let again = connect_locked conn2 host port clock later in
      AtWork conn max (submitted l) later
      × (later.effects ≡ m.effects)
      × (has_worker later.session ≡ false)
      × (again.1.1 ≡ some session_already_connected)
      × (has_worker again.0.session ≡ false)
stranded conn conn2 max host port clock l m room w h =
    let (w1, same) = submit-AtWork conn max l [] m (omega arith) w in
    let idle = submit-has_worker l m h in
    let (again, kept) = connect_refused conn2 host port clock _ w1.session w1.stored w1.connected in
    (w1, same, idle, again, kept ∙ sym (ap has_worker w1.stored) ∙ idle)

-- A connect that runs after the locked half of a disconnect and before the queue is stopped succeeds,
-- and the rest of the disconnect then stops the queue of the new connection. Whatever clients submit
-- next, as long as it fits in the queue, all of it waits on the connected session, nothing is given to
-- a connection, and the session has no worker; a further connect is refused and starts none.
pub connect_between_halves :
    (c1 c2 c3 c4 : Clock) (conn conn2 : ℕ) (host reason : Text) (port : ℤ) (fail : Bool)
    (l : List (Clock × Text)) (m : Manager) (s : Session)
    → m.session ≡ some s
    → s.connected ≡ true
    → length l ≤ s.queue.max_depth
    → let begun = disconnect_begin [] fail c1 m in
      let connected = connect_locked conn host port c2 begun.0 in
      let ended = disconnect_rest reason c3 (connected.0, begun.1) in
      let later = submit l ended.0 in
      let again = connect_locked conn2 host port c4 later in
      (connected.1.1 ≡ none)
      × AtWork conn s.queue.max_depth (submitted l) later
      × (later.effects ≡ ended.0.effects)
      × (has_worker later.session ≡ false)
      × (again.1.1 ≡ some session_already_connected)
      × (has_worker again.0.session ≡ false)
unfolding disconnect_rest broadcast
connect_between_halves c1 c2 c3 c4 conn conn2 host reason port fail l m s e c room =
    let s1 : Session = closing c1.now s in
    let begun : disconnect_begin [] fail c1 m
        ≡ (record m { session = some s1 }, proceeds (status_of s1) s.conn) =
      begin_known [] fail c1 m s e c (rw (text_eq_refl []) refl) in
    let connected : connect_locked conn host port c2 (record m { session = some s1 }) ≡ _ =
      connect_locked_known conn host port c2 (record m { session = some s1 }) s1 refl refl in
    rw (begun, connected)
      (let (waits, same, idle, refused, none_starts) =
          stranded conn conn2 s.queue.max_depth host port c4 l _ room
            (record {
              session = _;
              stored = refl;
              connected = refl;
              over = refl;
              commands = refl;
              limit = refl;
            })
            refl in
        (refl, waits, same, idle, refused, none_starts))
