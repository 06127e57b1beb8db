-- ===== src/Process/Story.antt =====
-- Which histories of the process end with code 0, and what its log then says.
use arda_wed_gateway.Base.{
  ℕ, ◌≡◌, ◌≢◌, ◌↔◌, refl, ◌∙◌, ap, Bool, true, false, ◌||◌, none, some, List, [], ◌∷◌, ◌++◌,
}
use arda_wed_gateway.Process.{
  Phase, starting, serving, stopping, killed, exited, Message, gateway_shutting_down,
  gateway_stopped, Process, server_closed, other_error, Happening, notified, signal, serve_returns,
  shutdown_returns, started, serve_ends, happen_in, run,
}

-- The server ends with an error that is not the one of a shutdown.
abbrev pub is_server_failure : Happening → Bool
is_server_failure (serve_returns (some (other_error message))) = true
is_server_failure (serve_returns (some server_closed)) = false
is_server_failure (serve_returns none) = false
is_server_failure (shutdown_returns r) = false
is_server_failure notified = false
is_server_failure signal = false

abbrev pub is_signal : Happening → Bool
is_signal signal = true
is_signal notified = false
is_signal (serve_returns r) = false
is_signal (shutdown_returns r) = false

abbrev pub is_notified : Happening → Bool
is_notified notified = true
is_notified signal = false
is_notified (serve_returns r) = false
is_notified (shutdown_returns r) = false

abbrev pub is_shutdown : Happening → Bool
is_shutdown (shutdown_returns r) = true
is_shutdown notified = false
is_shutdown signal = false
is_shutdown (serve_returns r) = false

-- Shutdown returns without an error before the server fails.
pub data Shuts : List Happening → Type 0 where
  shuts : (rest : List Happening) → Shuts (shutdown_returns none ∷ rest)
  shuts_later :
      (h : Happening) (hs : List Happening)
      → (is_server_failure h || is_shutdown h) ≡ false
      → Shuts hs
      → Shuts (h ∷ hs)

-- A signal arrives before the server fails, and then Shutdown ends well.
pub data Signals : List Happening → Type 0 where
  signals : (hs : List Happening) → Shuts hs → Signals (signal ∷ hs)
  signals_later :
      (h : Happening) (hs : List Happening)
      → (is_server_failure h || is_signal h) ≡ false
      → Signals hs
      → Signals (h ∷ hs)

-- Signals are asked for before the first arrives and before the server fails, and then one arrives.
pub data IsClean : List Happening → Type 0 where
  asks : (hs : List Happening) → Signals hs → IsClean (notified ∷ hs)
  asks_later :
      (h : Happening) (hs : List Happening)
      → (is_server_failure h || (is_notified h || is_signal h)) ≡ false
      → IsClean hs
      → IsClean (h ∷ hs)

abbrev at : Phase → List Message → Process
at phase log = record { phase = phase; log = log }

stays_stopping :
    (h : Happening) (log : List Message)
    → (is_server_failure h || is_shutdown h) ≡ false
    → happen_in stopping h log ≡ at stopping log
unfolding happen_in serve_ends
stays_stopping notified log e = refl
stays_stopping signal log e = refl
stays_stopping (serve_returns none) log e = refl
stays_stopping (serve_returns (some server_closed)) log e = refl
stays_stopping (serve_returns (some (other_error message))) log e = absurd (cc e)
stays_stopping (shutdown_returns r) log e = absurd (cc e)

stays_serving :
    (h : Happening) (log : List Message)
    → (is_server_failure h || is_signal h) ≡ false
    → happen_in serving h log ≡ at serving log
unfolding happen_in serve_ends
stays_serving notified log e = refl
stays_serving signal log e = absurd (cc e)
stays_serving (serve_returns none) log e = refl
stays_serving (serve_returns (some server_closed)) log e = refl
stays_serving (serve_returns (some (other_error message))) log e = absurd (cc e)
stays_serving (shutdown_returns r) log e = refl

stays_starting :
    (h : Happening) (log : List Message)
    → (is_server_failure h || (is_notified h || is_signal h)) ≡ false
    → happen_in starting h log ≡ at starting log
unfolding happen_in serve_ends
stays_starting notified log e = absurd (cc e)
stays_starting signal log e = absurd (cc e)
stays_starting (serve_returns none) log e = refl
stays_starting (serve_returns (some server_closed)) log e = refl
stays_starting (serve_returns (some (other_error message))) log e = absurd (cc e)
stays_starting (shutdown_returns r) log e = refl

-- An end is the end.
run_exited :
    (hs : List Happening) (n : ℕ) (log : List Message)
    → run hs (at (exited n) log) ≡ at (exited n) log
unfolding run happen_in
run_exited [] n log = refl
run_exited (h ∷ hs) n log = run_exited hs n log

run_killed : (hs : List Happening) (log : List Message) → run hs (at killed log) ≡ at killed log
unfolding run happen_in
run_killed [] log = refl
run_killed (h ∷ hs) log = run_killed hs log

abbrev phase_of : Process → Phase
phase_of p = p.phase

failed :
    (hs : List Happening) (log : List Message) → phase_of (run hs (at (exited 1) log)) ≢ exited 0
failed hs log e = absurd (cc (run_exited hs 1 log, e))

-- What the end with code 0 says of the rest of the history, phase by phase.
run-Shuts :
    (hs : List Happening) (log : List Message)
    → phase_of (run hs (at stopping log)) ≡ exited 0
    → Shuts hs
unfolding run happen_in serve_ends
run-Shuts [] log e = absurd (cc e)
run-Shuts (notified ∷ hs) log e = shuts_later notified hs refl (run-Shuts hs log e)
run-Shuts (signal ∷ hs) log e = shuts_later signal hs refl (run-Shuts hs log e)
run-Shuts (serve_returns none ∷ hs) log e =
    shuts_later (serve_returns none) hs refl (run-Shuts hs log e)
run-Shuts (serve_returns (some server_closed) ∷ hs) log e =
    shuts_later (serve_returns (some server_closed)) hs refl (run-Shuts hs log e)
run-Shuts (serve_returns (some (other_error message)) ∷ hs) log e = absurd (failed hs _ e)
run-Shuts (shutdown_returns none ∷ hs) log e = shuts hs
run-Shuts (shutdown_returns (some err) ∷ hs) log e = absurd (failed hs _ e)

run-Signals :
    (hs : List Happening) (log : List Message)
    → phase_of (run hs (at serving log)) ≡ exited 0
    → Signals hs
unfolding run happen_in serve_ends
run-Signals [] log e = absurd (cc e)
run-Signals (notified ∷ hs) log e = signals_later notified hs refl (run-Signals hs log e)
run-Signals (signal ∷ hs) log e = signals hs (run-Shuts hs _ e)
run-Signals (serve_returns none ∷ hs) log e =
    signals_later (serve_returns none) hs refl (run-Signals hs log e)
run-Signals (serve_returns (some server_closed) ∷ hs) log e =
    signals_later (serve_returns (some server_closed)) hs refl (run-Signals hs log e)
run-Signals (serve_returns (some (other_error message)) ∷ hs) log e = absurd (failed hs _ e)
run-Signals (shutdown_returns r ∷ hs) log e =
    signals_later (shutdown_returns r) hs refl (run-Signals hs log e)

run-IsClean :
    (hs : List Happening) (log : List Message)
    → phase_of (run hs (at starting log)) ≡ exited 0
    → IsClean hs
unfolding run happen_in serve_ends
run-IsClean [] log e = absurd (cc e)
run-IsClean (notified ∷ hs) log e = asks hs (run-Signals hs log e)
run-IsClean (signal ∷ hs) log e = absurd (cc (run_killed hs log, e))
run-IsClean (serve_returns none ∷ hs) log e =
    asks_later (serve_returns none) hs refl (run-IsClean hs log e)
run-IsClean (serve_returns (some server_closed) ∷ hs) log e =
    asks_later (serve_returns (some server_closed)) hs refl (run-IsClean hs log e)
run-IsClean (serve_returns (some (other_error message)) ∷ hs) log e = absurd (failed hs _ e)
run-IsClean (shutdown_returns r ∷ hs) log e =
    asks_later (shutdown_returns r) hs refl (run-IsClean hs log e)

-- And such a history ends so.
Shuts-exits :
    {hs : List Happening} (log : List Message)
    → Shuts hs
    → run hs (at stopping log) ≡ at (exited 0) (log ++ (gateway_stopped ∷ []))
unfolding run
Shuts-exits log (shuts rest) = unfold happen_in in run_exited rest 0 _
Shuts-exits log (shuts_later h hs e d) = ap (run hs) (stays_stopping h log e) ∙ Shuts-exits log d

Signals-exits :
    {hs : List Happening} (log : List Message)
    → Signals hs
    → run hs (at serving log)
      ≡ at (exited 0) ((log ++ (gateway_shutting_down ∷ [])) ++ (gateway_stopped ∷ []))
unfolding run
Signals-exits log (signals hs d) =
    unfold happen_in in Shuts-exits (log ++ (gateway_shutting_down ∷ [])) d
Signals-exits log (signals_later h hs e d) =
    ap (run hs) (stays_serving h log e) ∙ Signals-exits log d

IsClean-exits :
    {hs : List Happening} (log : List Message)
    → IsClean hs
    → run hs (at starting log)
      ≡ at (exited 0) ((log ++ (gateway_shutting_down ∷ [])) ++ (gateway_stopped ∷ []))
unfolding run
IsClean-exits log (asks hs d) = unfold happen_in in Signals-exits log d
IsClean-exits log (asks_later h hs e d) = ap (run hs) (stays_starting h log e) ∙ IsClean-exits log d

-- The process ends with code 0 exactly on these histories: its signals are asked for, then one arrives,
-- then Shutdown returns without an error, and until then no signal came too early and the server failed
-- with no error but that of a shutdown; whatever comes in between and behind. A history without one of
-- these steps, in this order, does not end so, and on one with them the process does end.
pub run-exits : (hs : List Happening) → ((run hs started).phase ≡ exited 0) ↔ IsClean hs
unfolding started
run-exits hs = (run-IsClean hs _, λ c. ap phase_of (IsClean-exits _ c))
