-- ===== src/Gateway/Manager/Delivered.antt =====
-- Commands that clients enqueue, and the ticks that send them.
use arda_wed_gateway.Base.{
  ℕ, ◌+◌, ◌≡◌, ◌≤◌, ◌<◌, refl, ap, ◌∙◌, subst, true, Option, some, List, [], ◌∷◌, ◌++◌, arith,
  length, length-append, append_assoc, append-nil, drop, drop-nil, drop-all,
}
use arda_wed_gateway.Base.Text.{Text}
use arda_wed_gateway.Base.Word.{ℤ}
use arda_wed_gateway.Gateway.Queue
use arda_wed_gateway.Gateway.Manager.{
  Clock, Session, Manager, Effect, broadcast, ensure_session, ensure_from,
}
use arda_wed_gateway.Gateway.Manager.Commands.{WriteOutcome, worker_tick, enqueue, enqueue_answer}
use arda_wed_gateway.Gateway.Manager.Drain.{AtWork, effects_after, tick-AtWork, idle-AtWork}

-- A tick of the worker: how the connection takes a command, and when.
abbrev pub Tick : Type 0
Tick = WriteOutcome × ℤ × Clock

unfoldable pub ticks : (Text → Option (List ℕ)) → List Tick → Manager → Manager
ticks encoder [] m = m
ticks encoder ((outcome, elapsed, clock) ∷ ts) m =
    ticks encoder ts (worker_tick encoder outcome elapsed clock m)

-- What the connection is given of these commands, one at each tick.
unfoldable pub writes_of :
    (Text → Option (List ℕ)) → ℕ → List Tick → List Text → List Effect → List Effect
writes_of encoder k [] cs es = es
writes_of encoder k (t ∷ ts) [] es = es
writes_of encoder k ((outcome, elapsed, clock) ∷ ts) (c ∷ cs) es =
    writes_of encoder k ts cs (effects_after encoder k outcome c es)

writes_of_none :
    (encoder : Text → Option (List ℕ)) (k : ℕ) (ts : List Tick) (es : List Effect)
    → writes_of encoder k ts [] es ≡ es
unfolding writes_of
writes_of_none encoder k [] es = refl
writes_of_none encoder k (t ∷ ts) es = refl

pub ticks-AtWork :
    (encoder : Text → Option (List ℕ)) (k max : ℕ) (ts : List Tick) (cs : List Text) (m : Manager)
    → AtWork k max cs m
    → let n = ticks encoder ts m in
      AtWork k max (drop (length ts) cs) n × (n.effects ≡ writes_of encoder k ts cs m.effects)
unfolding ticks writes_of
ticks-AtWork encoder k max [] cs m w = (w, refl)
ticks-AtWork encoder k max ((outcome, elapsed, clock) ∷ ts) [] m w =
    let (w1, e1) = idle-AtWork encoder outcome elapsed clock k max m w in
    let (w2, e2) = ticks-AtWork encoder k max ts [] _ w1 in
    (
      subst (λ l. AtWork k max l (ticks encoder ts (worker_tick encoder outcome elapsed clock m)))
          (drop-nil (length ts)) w2,
      e2 ∙ writes_of_none encoder k ts _ ∙ e1,
    )
ticks-AtWork encoder k max ((outcome, elapsed, clock) ∷ ts) (c ∷ cs) m w =
    let (w1, e1) = tick-AtWork encoder outcome elapsed clock k max c cs m w in
    let (w2, e2) = ticks-AtWork encoder k max ts cs _ w1 in
    (w2, e2 ∙ ap (writes_of encoder k ts cs) e1)

enqueue_room :
    (c : Text) (clock : Clock) (m : Manager) (s : Session)
    → m.session ≡ some s
    → s.connected ≡ true
    → length s.queue.commands < s.queue.max_depth
    → let n = (enqueue c clock m).0 in
      (n.session
        ≡ some (record s {
          last_activity = clock.now;
          queue = record s.queue { commands = s.queue.commands ++ (c ∷ []) };
        }))
      × (n.effects ≡ m.effects)
unfolding enqueue enqueue_answer ensure_session ensure_from broadcast Queue.enqueue
enqueue_room c clock m s e h r = ground arith

enqueue-AtWork :
    (k max : ℕ) (c : Text) (cs : List Text) (clock : Clock) (m : Manager)
    → length cs < max
    → AtWork k max cs m
    → let n = (enqueue c clock m).0 in AtWork k max (cs ++ (c ∷ [])) n × (n.effects ≡ m.effects)
enqueue-AtWork k max c cs clock m r w =
    let s = w.session in
    let (stored, same) =
      enqueue_room c clock m s w.stored w.connected
        (omega (arith, ap length w.commands, w.limit)) in
    (
      record {
        session = _;
        stored = stored;
        connected = w.connected;
        over = w.over;
        commands = ap (λ l. l ++ (c ∷ [])) w.commands;
        limit = w.limit;
      },
      same,
    )

-- The commands of requests, one after the other.
unfoldable pub submit : List (Clock × Text) → Manager → Manager
submit [] m = m
submit ((clock, c) ∷ l) m = submit l (enqueue c clock m).0

unfoldable pub submitted : List (Clock × Text) → List Text
submitted [] = []
submitted ((clock, c) ∷ l) = c ∷ submitted l

pub submit-AtWork :
    (k max : ℕ) (l : List (Clock × Text)) (cs : List Text) (m : Manager)
    → length cs + length l ≤ max
    → AtWork k max cs m
    → AtWork k max (cs ++ submitted l) (submit l m) × ((submit l m).effects ≡ m.effects)
unfolding submit submitted
submit-AtWork k max [] cs m h w = (rw (append-nil cs) w, refl)
submit-AtWork k max ((clock, c) ∷ l) cs m h w =
    let (w1, e1) = enqueue-AtWork k max c cs clock m (omega arith) w in
    let (w2, e2) =
      submit-AtWork k max l (cs ++ (c ∷ [])) _ (omega (arith, length-append cs (c ∷ []))) w1 in
    (rw (append_assoc cs (c ∷ []) (submitted l)) at w2, e2 ∙ e1)

-- On a session that is connected, with commands that wait, let clients submit
-- more while all of them fit in the queue, and let the worker then tick at least as often as there
-- are commands: no command waits any more, the session is still connected, and what the connection
-- was given since are the commands' bytes in the order of their submission, each once; of a command at
-- whose tick the connection failed it was given the bytes before the failure, or none.
pub submit-ticks :
    (encoder : Text → Option (List ℕ)) (k max : ℕ) (cs : List Text) (l : List (Clock × Text))
    (ts : List Tick) (m : Manager)
    → AtWork k max cs m
    → length cs + length l ≤ max
    → length (cs ++ submitted l) ≤ length ts
    → let n = ticks encoder ts (submit l m) in
      AtWork k max [] n × (n.effects ≡ writes_of encoder k ts (cs ++ submitted l) m.effects)
submit-ticks encoder k max cs l ts m w h enough =
    let (w1, e1) = submit-AtWork k max l cs m h w in
    let (w2, e2) = ticks-AtWork encoder k max ts (cs ++ submitted l) _ w1 in
    (
      subst (λ left. AtWork k max left (ticks encoder ts (submit l m)))
          (drop-all (length ts) (cs ++ submitted l) enough) w2,
      e2 ∙ ap (writes_of encoder k ts (cs ++ submitted l)) e1,
    )
