-- ===== src/Gateway/Manager/Drain.antt =====
-- From a command of a client to the bytes on the connection, over several calls.
use arda_wed_gateway.Base.{ℕ, ◌≡◌, refl, sym, ap, ◌∙◌, subst, true, Option, some, List, [], ◌∷◌}
use arda_wed_gateway.Base.Text.{Text}
use arda_wed_gateway.Base.Word.{ℤ}
use arda_wed_gateway.Gateway.Metrics.{set_queue_depth}
use arda_wed_gateway.Gateway.Queue
use arda_wed_gateway.Gateway.Queue.{pop}
use arda_wed_gateway.Gateway.Manager.{Clock, Session, Manager, Effect, broadcast}
use arda_wed_gateway.Gateway.Manager.Commands.{
  WriteOutcome, deadline_fails, write_fails, written, encode_command, write_to, worker_answer,
  worker_send, worker_from, worker_tick,
}
use arda_wed_gateway.Gateway.Manager.Worker.{
  given_to, tick_known, popped_session, popped_manager, write_command_known,
}

-- A session that is connected over `k`, with these commands waiting in a queue of this limit.
pub record AtWork (k max : ℕ) (cs : List Text) (m : Manager) : Type 0 where
  pub session : Session
  pub stored : m.session ≡ some session
  pub connected : session.connected ≡ true
  pub over : session.conn ≡ some k
  pub commands : session.queue.commands ≡ cs
  pub limit : session.queue.max_depth ≡ max

-- What one tick does to the manager's effects.
abbrev pub effects_after :
    (Text → Option (List ℕ)) → ℕ → WriteOutcome → Text → List Effect → List Effect
effects_after encoder k outcome c es = given_to k outcome (encode_command encoder c) es

answer-AtWork :
    (encoder : Text → Option (List ℕ)) (outcome : WriteOutcome) (elapsed : ℤ) (clock : Clock)
    (k : ℕ) (c : Text) (cs : List Text) (s : Session) (m : Manager)
    → m.session ≡ some s
    → s.connected ≡ true
    → s.conn ≡ some k
    → s.queue.commands ≡ cs
    → let r = write_to encoder outcome clock c (some k) s m in
      let n = worker_answer r.1 c elapsed clock s r.0 in
      AtWork k s.queue.max_depth cs n × (n.effects ≡ effects_after encoder k outcome c m.effects)
unfolding write_to worker_answer broadcast
answer-AtWork encoder deadline_fails elapsed clock k c cs s m e h1 h2 h3 = (
  record { session = s; stored = e; connected = h1; over = h2; commands = h3; limit = refl },
  refl,
)
answer-AtWork encoder (write_fails n) elapsed clock k c cs s m e h1 h2 h3 = (
  record { session = s; stored = e; connected = h1; over = h2; commands = h3; limit = refl },
  refl,
)
answer-AtWork encoder written elapsed clock k c cs s m e h1 h2 h3 = (
  record {
    session = record s { last_activity = clock.now };
    stored = refl;
    connected = h1;
    over = h2;
    commands = h3;
    limit = refl;
  },
  refl,
)

pub tick-AtWork :
    (encoder : Text → Option (List ℕ)) (outcome : WriteOutcome) (elapsed : ℤ) (clock : Clock)
    (k max : ℕ) (c : Text) (cs : List Text) (m : Manager)
    → AtWork k max (c ∷ cs) m
    → let n = worker_tick encoder outcome elapsed clock m in
      AtWork k max cs n × (n.effects ≡ effects_after encoder k outcome c m.effects)
unfolding worker_send popped_manager popped_session set_queue_depth
tick-AtWork encoder outcome elapsed clock k max c cs m w =
    let s = w.session in
    let here : Session = popped_session cs s in
    let rest : Manager = popped_manager cs s m in
    let eq : worker_tick encoder outcome elapsed clock m
        ≡ worker_answer (write_to encoder outcome clock c (some k) here rest).1 c elapsed clock here
            (write_to encoder outcome clock c (some k) here rest).0 =
      tick_known encoder outcome elapsed clock m s c cs w.stored w.commands
      ∙ ap (λ r. worker_answer r.1 c elapsed clock here r.0)
          (write_command_known encoder outcome clock c here k rest refl w.connected w.over) in
    subst
      (λ (n : Manager).
        AtWork k max cs n × (n.effects ≡ effects_after encoder k outcome c m.effects))
      (sym eq)
      (subst
        (λ i.
          let r = write_to encoder outcome clock c (some k) here rest in
          let n = worker_answer r.1 c elapsed clock here r.0 in
          AtWork k i cs n × (n.effects ≡ effects_after encoder k outcome c m.effects))
        w.limit
        (answer-AtWork encoder outcome elapsed clock k c cs here rest refl w.connected w.over refl))

idle_tick :
    (encoder : Text → Option (List ℕ)) (outcome : WriteOutcome) (elapsed : ℤ) (clock : Clock)
    (m : Manager) (s : Session)
    → m.session ≡ some s
    → s.queue.commands ≡ []
    → worker_tick encoder outcome elapsed clock m ≡ record m { session = some s }
unfolding worker_tick worker_from pop worker_send
idle_tick encoder outcome elapsed clock m s e h =
    ap (λ o. worker_from o encoder outcome elapsed clock m) e
    ∙ ap
        (λ l.
          worker_send encoder outcome elapsed clock (Queue.pop_from l m.metrics s.queue).2
            (record s { queue = (Queue.pop_from l m.metrics s.queue).1 })
            (record m {
              session = some (record s { queue = (Queue.pop_from l m.metrics s.queue).1 });
              metrics = (Queue.pop_from l m.metrics s.queue).0;
            }))
        h

pub idle-AtWork :
    (encoder : Text → Option (List ℕ)) (outcome : WriteOutcome) (elapsed : ℤ) (clock : Clock)
    (k max : ℕ) (m : Manager)
    → AtWork k max [] m
    → let n = worker_tick encoder outcome elapsed clock m in
      AtWork k max [] n × (n.effects ≡ m.effects)
idle-AtWork encoder outcome elapsed clock k max m w =
    subst (λ (n : Manager). AtWork k max [] n × (n.effects ≡ m.effects))
      (sym (idle_tick encoder outcome elapsed clock m w.session w.stored w.commands))
      (
        record {
          session = w.session;
          stored = refl;
          connected = w.connected;
          over = w.over;
          commands = w.commands;
          limit = w.limit;
        },
        refl,
      )
