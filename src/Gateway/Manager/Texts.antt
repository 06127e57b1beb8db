-- ===== src/Gateway/Manager/Texts.antt =====
-- The texts that the manager hands to `onTerminal`, of which only the reader makes any.
use arda_wed_gateway.Base.{
  ℕ, ◌≡◌, refl, ◌∙◌, ap, Bool, true, false, Option, none, some, List, [], ◌∷◌, ◌++◌, arith,
}
use arda_wed_gateway.Base.Text.{Text, codes}
use arda_wed_gateway.Base.Word.{ℤ}
use arda_wed_gateway.Gateway.Queue
use arda_wed_gateway.Gateway.Manager.{
  Clock, Session, Effect, closes, writes, on_terminal, Manager, GatewayError, broadcast,
  ensure_from, ensure_session, status, connect, connect_locked, announce,
}
use arda_wed_gateway.Gateway.Manager.Disconnect.{
  Verdict, returns, proceeds, disconnect_begin, disconnect_rest, disconnect_finish, close_conn,
  stop_session, disconnect, manual_disconnect, ReadFailure, disconnect_reason,
  handle_upstream_disconnect,
}
use arda_wed_gateway.Gateway.Manager.Commands.{
  WriteOutcome, deadline_fails, write_fails, written, enqueue, enqueue_answer, write_to, write_from,
  write_command, worker_answer, worker_send, worker_from, worker_tick,
}

-- With their sessions, the latest first.
unfoldable pub texts : List Effect → List (Text × Text)
texts [] = []
texts (closes conn ∷ es) = texts es
texts (writes conn bytes ∷ es) = texts es
texts (on_terminal id text ∷ es) = (id, text) ∷ texts es

pub texts-append : (es fs : List Effect) → texts (es ++ fs) ≡ texts es ++ texts fs
unfolding texts
texts-append [] fs = refl
texts-append (closes conn ∷ es) fs = texts-append es fs
texts-append (writes conn bytes ∷ es) fs = texts-append es fs
texts-append (on_terminal id text ∷ es) fs = ap ((id, text) ∷◌) (texts-append es fs)

ensure-effects : (now : ℕ) (m : Manager) → (ensure_session now m).1.effects ≡ m.effects
unfolding ensure_session ensure_from
ensure-effects now m = ground arith

pub status-texts :
    (clock : Clock) (m : Manager) → texts (status clock m).0.effects ≡ texts m.effects
unfolding status
status-texts clock m = ap texts (ensure-effects clock.now m)

pub connect-texts :
    (dialed : Option ℕ) (host : Text) (port : ℤ) (clock : Clock) (m : Manager)
    → texts (connect dialed host port clock m).0.effects ≡ texts m.effects
unfolding connect connect_locked announce broadcast ensure_session ensure_from texts
connect-texts none host port clock m = refl
connect-texts (some conn) host port clock m = ground arith

close-texts : (o : Option ℕ) (es : List Effect) → texts (close_conn o es) ≡ texts es
unfolding close_conn texts
close-texts none es = refl
close-texts (some c) es = refl

stop-effects : (o : Option Session) (m : Manager) → (stop_session o m).0.effects ≡ m.effects
unfolding stop_session
stop-effects none m = refl
stop-effects (some s) m = refl

rest-texts :
    (reason : Text) (clock : Clock) (m : Manager) (v : Verdict)
    → texts (disconnect_rest reason clock (m, v)).0.effects ≡ texts m.effects
unfolding disconnect_rest disconnect_finish broadcast
rest-texts reason clock m (returns st err) = refl
rest-texts reason clock m (proceeds st conn) =
    ap texts (stop-effects m.session (record m { effects = close_conn conn m.effects }))
    ∙ close-texts conn m.effects

begin-effects :
    (id : Text) (fail : Bool) (clock : Clock) (m : Manager)
    → (disconnect_begin id fail clock m).0.effects ≡ m.effects
unfolding disconnect_begin ensure_session ensure_from
begin-effects id fail clock m = ground arith

pub disconnect-texts :
    (clock : Clock) (m : Manager) → texts (manual_disconnect clock m).0.effects ≡ texts m.effects
unfolding manual_disconnect disconnect
disconnect-texts clock m =
    rest-texts (codes "manual disconnect") clock (disconnect_begin [] true clock m).0
      (disconnect_begin [] true clock m).1
    ∙ ap texts (begin-effects [] true clock m)

pub upstream-texts :
    (id : Text) (err : ReadFailure) (clock : Clock) (m : Manager)
    → texts (handle_upstream_disconnect id err clock m).effects ≡ texts m.effects
unfolding handle_upstream_disconnect disconnect
upstream-texts id err clock m =
    let r = disconnect_begin id false clock m in
    rest-texts (disconnect_reason err) clock r.0 r.1 ∙ ap texts (begin-effects id false clock m)

pub enqueue-texts :
    (command : Text) (clock : Clock) (m : Manager)
    → texts (enqueue command clock m).0.effects ≡ texts m.effects
unfolding enqueue enqueue_answer ensure_session ensure_from broadcast Queue.enqueue
enqueue-texts command clock m = ground arith

write_to-texts :
    (encoder : Text → Option (List ℕ)) (outcome : WriteOutcome) (clock : Clock) (c : Text)
    (o : Option ℕ) (s : Session) (m : Manager)
    → texts (write_to encoder outcome clock c o s m).0.effects ≡ texts m.effects
unfolding write_to texts
write_to-texts encoder outcome clock c none s m = refl
write_to-texts encoder deadline_fails clock c (some k) s m = refl
write_to-texts encoder (write_fails n) clock c (some k) s m = refl
write_to-texts encoder written clock c (some k) s m = refl

write_command-texts :
    (encoder : Text → Option (List ℕ)) (outcome : WriteOutcome) (clock : Clock) (id c : Text)
    (m : Manager)
    → texts (write_command encoder outcome clock id c m).0.effects ≡ texts m.effects
unfolding write_command
write_command-texts encoder outcome clock id c m = go m.session
  where
    go :
        (o : Option Session)
        → texts (write_from o encoder outcome clock id c m).0.effects ≡ texts m.effects
    go none = unfold write_from in refl
    go (some s) =
        unfold write_from in ground (arith, write_to-texts encoder outcome clock c s.conn s m)

answer-effects :
    (err : Option GatewayError) (c : Text) (elapsed : ℤ) (clock : Clock) (s : Session) (m : Manager)
    → (worker_answer err c elapsed clock s m).effects ≡ m.effects
unfolding worker_answer broadcast
answer-effects none c elapsed clock s m = refl
answer-effects (some err) c elapsed clock s m = refl

send-texts :
    (encoder : Text → Option (List ℕ)) (outcome : WriteOutcome) (elapsed : ℤ) (clock : Clock)
    (o : Option Text) (s : Session) (m : Manager)
    → texts (worker_send encoder outcome elapsed clock o s m).effects ≡ texts m.effects
unfolding worker_send
send-texts encoder outcome elapsed clock none s m = refl
send-texts encoder outcome elapsed clock (some c) s m =
    let r = write_command encoder outcome clock s.id c m in
    ap texts (answer-effects r.1 c elapsed clock s r.0)
    ∙ write_command-texts encoder outcome clock s.id c m

pub tick-texts :
    (encoder : Text → Option (List ℕ)) (outcome : WriteOutcome) (elapsed : ℤ) (clock : Clock)
    (m : Manager)
    → texts (worker_tick encoder outcome elapsed clock m).effects ≡ texts m.effects
unfolding worker_tick
tick-texts encoder outcome elapsed clock m = go m.session
  where
    go :
        (o : Option Session)
        → texts (worker_from o encoder outcome elapsed clock m).effects ≡ texts m.effects
    go none = unfold worker_from in refl
    go (some s) = unfold worker_from in send-texts encoder outcome elapsed clock _ _ _
