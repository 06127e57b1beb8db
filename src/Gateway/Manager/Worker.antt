-- ===== src/Gateway/Manager/Worker.antt =====
-- One tick of the worker, on a connected session with a command that waits.
use arda_wed_gateway.Base.{
  ℕ, ◌≡◌, refl, sym, ap, subst, ◌∙◌, not, ◌||◌, Bool, true, false, Option, some, List, ◌∷◌,
  if◌then◌else◌, length, take,
}
use arda_wed_gateway.Base.Text.{Text, text_eq, text_eq_refl}
use arda_wed_gateway.Base.Word.{ℤ, add64}
use arda_wed_gateway.Gateway.Metrics.{Metrics, set_queue_depth}
use arda_wed_gateway.Gateway.Hub.Counters.{broadcast-sent}
use arda_wed_gateway.Gateway.Queue.System.Counts.{observe-sent}
use arda_wed_gateway.Gateway.Queue.{CommandQueue, pop, pop_from}
use arda_wed_gateway.Gateway.Manager.{
  Clock, Session, session_not_connected, Manager, broadcast, Effect, writes,
}
use arda_wed_gateway.Gateway.Manager.Commands.{
  WriteOutcome, deadline_fails, write_fails, written, encode_command, write_command, write_from,
  write_to, worker_answer, worker_send, worker_from, worker_tick,
}
use arda_wed_gateway.Gateway.Manager.Sessions.{waiting}

abbrev pub is_written : WriteOutcome → Bool
is_written written = true
is_written deadline_fails = false
is_written (write_fails n) = false

-- What the connection is given of a payload.
abbrev pub given_to : ℕ → WriteOutcome → List ℕ → List Effect → List Effect
given_to k written payload es = writes k payload ∷ es
given_to k (write_fails n) payload es = writes k (take n payload) ∷ es
given_to k deadline_fails payload es = es

pop_known :
    (m : Metrics) (q : CommandQueue) (c : Text) (cs : List Text)
    → q.commands ≡ c ∷ cs
    → pop m q ≡ (set_queue_depth (length cs) m, record q { commands = cs }, some c)
unfolding pop
pop_known m q c cs h = ap (λ l. pop_from l m q) h

pub write_command_known :
    (encoder : Text → Option (List ℕ)) (outcome : WriteOutcome) (clock : Clock) (c : Text)
    (s : Session) (k : ℕ) (m : Manager)
    → m.session ≡ some s
    → s.connected ≡ true
    → s.conn ≡ some k
    → write_command encoder outcome clock s.id c m ≡ write_to encoder outcome clock c (some k) s m
unfolding write_command
write_command_known encoder outcome clock c s k m e h1 h2 =
    let open_here : (not (text_eq s.id s.id) || not s.connected) ≡ false =
      rw (text_eq_refl s.id) (ap not h1) in
    ap (λ o. write_from o encoder outcome clock s.id c m) e
    ∙ ap
        (λ b.
          if b
          then (m, some session_not_connected)
          else write_to encoder outcome clock c s.conn s m)
        open_here
    ∙ ap (λ o. write_to encoder outcome clock c o s m) h2

-- What the worker's tick leaves, its command popped and the connection known.
pub Sends : WriteOutcome → List Effect → List ℕ → ℕ → List Text → ℕ → Manager → Type 0
Sends outcome effects payload k cs sent m =
    (m.effects ≡ given_to k outcome payload effects)
    × (waiting m.session ≡ cs)
    × (m.metrics.queue_sent_total ≡ (if is_written outcome then add64 sent 1 else sent))

worker_answer_known :
    (encoder : Text → Option (List ℕ)) (outcome : WriteOutcome) (elapsed : ℤ) (clock : Clock)
    (c : Text) (s : Session) (k : ℕ) (m : Manager)
    → m.session ≡ some s
    → let r = write_to encoder outcome clock c (some k) s m in
      Sends outcome m.effects
        (encode_command encoder c)
        k
        s.queue.commands
        m.metrics.queue_sent_total
        (worker_answer r.1 c elapsed clock s r.0)
unfolding write_to worker_answer broadcast Sends
worker_answer_known encoder deadline_fails elapsed clock c s k m e =
    (refl, ap waiting e, broadcast-sent _ _ m.hub)
worker_answer_known encoder (write_fails n) elapsed clock c s k m e =
    (refl, ap waiting e, broadcast-sent _ _ m.hub)
worker_answer_known encoder written elapsed clock c s k m e =
    (refl, refl, (observe-sent elapsed _).0)

unfoldable pub popped_session : List Text → Session → Session
popped_session cs s = record s { queue = record s.queue { commands = cs } }

unfoldable pub popped_manager : List Text → Session → Manager → Manager
unfolding popped_session
popped_manager cs s m = record m {
  session = some (popped_session cs s);
  metrics = set_queue_depth (length cs) m.metrics;
}

pub tick_known :
    (encoder : Text → Option (List ℕ)) (outcome : WriteOutcome) (elapsed : ℤ) (clock : Clock)
    (m : Manager) (s : Session) (c : Text) (cs : List Text)
    → m.session ≡ some s
    → s.queue.commands ≡ c ∷ cs
    → worker_tick encoder outcome elapsed clock m
      ≡ worker_send encoder outcome elapsed clock
          (some c)
          (popped_session cs s)
          (popped_manager cs s m)
unfolding worker_tick popped_manager
tick_known encoder outcome elapsed clock m s c cs e h =
    ap (λ o. worker_from o encoder outcome elapsed clock m) e
    ∙ ap
        (λ (r : Metrics × CommandQueue × Option Text).
          worker_send encoder outcome elapsed clock r.2 (record s { queue = r.1 })
            (record m { session = some (record s { queue = r.1 }); metrics = r.0 }))
        (pop_known m.metrics s.queue c cs h)

-- One tick of the worker, on a connected session with a command that waits: the first command
-- leaves the queue and the others keep their order. Its bytes, encoded with a newline after it, are
-- given once to the session's connection and counted as sent where the connection takes them all;
-- where Write fails, only the bytes before the failure are given, and none where the deadline cannot be
-- set; then nothing is counted as sent and the command is not put back.
pub worker_tick-Sends :
    (encoder : Text → Option (List ℕ)) (outcome : WriteOutcome) (elapsed : ℤ) (clock : Clock)
    (m : Manager) (s : Session) (k : ℕ) (c : Text) (cs : List Text)
    → m.session ≡ some s
    → s.connected ≡ true
    → s.conn ≡ some k
    → s.queue.commands ≡ c ∷ cs
    → Sends outcome m.effects
        (encode_command encoder c)
        k
        cs
        m.metrics.queue_sent_total
        (worker_tick encoder outcome elapsed clock m)
unfolding worker_send popped_manager set_queue_depth
worker_tick-Sends encoder outcome elapsed clock m s k c cs e h1 h2 h3 =
    let rest : Manager = popped_manager cs s m in
    let wrote : write_command encoder outcome clock s.id c rest
        ≡ write_to encoder outcome clock c (some k) (popped_session cs s) rest =
      write_command_known encoder outcome clock c (popped_session cs s) k rest refl h1 h2 in
    subst (Sends outcome m.effects (encode_command encoder c) k cs m.metrics.queue_sent_total)
      (sym (
        tick_known encoder outcome elapsed clock m s c cs e h3
        ∙ ap (λ r. worker_answer r.1 c elapsed clock (popped_session cs s) r.0) wrote))
      (worker_answer_known encoder outcome elapsed clock c (popped_session cs s) k rest refl)
