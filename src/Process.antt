-- ===== src/Process.antt =====
-- backend/cmd/gateway/main.go: the process, from its start to its exit. ListenAndServe, Shutdown and the
-- signals are what happens to it; `Shutdown` returns within the time of its context.
pub mod Story
use arda_wed_gateway.Base.{
  ℕ, ◌*◌, ◌++◌, Bool, true, false, not, Option, none, some, List, [], ◌∷◌, if◌then◌else◌,
}
use arda_wed_gateway.Base.Text.{Text, codes}
use arda_wed_gateway.Base.Word.{ℤ}
use arda_wed_gateway.Config.{Config, load, address, second, shutdown_timeout}
use arda_wed_gateway.State.Service.{Store, new_service}
use arda_wed_gateway.State.Sqlite.Open.{Driver, new_sqlite_store, store_of}
use arda_wed_gateway.App.{App}
use arda_wed_gateway.App.Steps.{new_app}

-- http.Server; times in nanoseconds.
pub record Server (H : Type 0) : Type 0 where
  pub addr : Text
  pub handler : H
  pub read_timeout : ℕ
  pub write_timeout : ℕ
  pub idle_timeout : ℕ

-- NewRouter with the store that NewService finds.
unfoldable pub gateway : {D : Type 0} → Driver D → Config → App (Store D)
unfolding new_app new_service new_sqlite_store
gateway driver cfg = new_app cfg (new_service (store_of (new_sqlite_store driver cfg.sqlite_path)))

-- What main serves.
unfoldable pub new_server : {D : Type 0} → Driver D → Config → Server (App (Store D))
unfolding gateway address
new_server driver cfg = record {
  addr = address cfg;
  handler = gateway driver cfg;
  read_timeout = 15 * second;
  write_timeout = 15 * second;
  idle_timeout = 60 * second;
}

-- Before `signal.Notify` a signal kills the process; behind it main waits for one, then for Shutdown.
pub data Phase : Type 0 where
  starting serving stopping killed : Phase
  exited : ℕ → Phase

-- The messages of main.
pub data Message : Type 0 where
  gateway_starting gateway_shutting_down gateway_stopped : Message
  gateway_server_failed gateway_graceful_shutdown_failed : Text → Message

pub record Process : Type 0 where
  pub phase : Phase
  pub log : List Message

-- An error of ListenAndServe: http.ErrServerClosed, or another with its message.
pub data ServeError : Type 0 where
  server_closed : ServeError
  other_error : Text → ServeError

-- `signal.Notify` returns; SIGINT or SIGTERM arrives; ListenAndServe returns; Shutdown returns.
pub data Happening : Type 0 where
  notified signal : Happening
  serve_returns : Option ServeError → Happening
  shutdown_returns : Option Text → Happening

-- The process once it has said that it starts.
unfoldable pub started : Process
started = record { phase = starting; log = gateway_starting ∷ [] }

-- A message, and what comes behind it.
abbrev pub says : Message → Phase → List Message → Process
says m phase log = record { phase = phase; log = log ++ (m ∷ []) }

-- err.Error()
abbrev pub serve_message : ServeError → Text
serve_message server_closed = codes "http: Server closed"
serve_message (other_error message) = message

-- err != http.ErrServerClosed
abbrev pub is_closed : ServeError → Bool
is_closed server_closed = true
is_closed (other_error message) = false

-- The goroutine of the server, once ListenAndServe returned; the rest of the process is in this phase.
unfoldable pub serve_ends : Option ServeError → Phase → List Message → Process
serve_ends none phase log = record { phase = phase; log = log }
serve_ends (some err) phase log =
    if not (is_closed err)
    then says (gateway_server_failed (serve_message err)) (exited 1) log
    else record { phase = phase; log = log }

-- One happening in each phase; an exit ends the goroutine and main alike.
unfoldable pub happen_in : Phase → Happening → List Message → Process
unfolding serve_ends
happen_in (exited code) h log = record { phase = exited code; log = log }
happen_in killed h log = record { phase = killed; log = log }
happen_in starting (serve_returns err) log = serve_ends err starting log
happen_in serving (serve_returns err) log = serve_ends err serving log
happen_in stopping (serve_returns err) log = serve_ends err stopping log
happen_in starting notified log = record { phase = serving; log = log }
happen_in starting signal log = record { phase = killed; log = log }
happen_in serving signal log = says gateway_shutting_down stopping log
happen_in stopping (shutdown_returns none) log = says gateway_stopped (exited 0) log
happen_in stopping (shutdown_returns (some err)) log =
    says (gateway_graceful_shutdown_failed err) (exited 1) log
happen_in phase h log = record { phase = phase; log = log }

unfoldable pub run : List Happening → Process → Process
unfolding happen_in
run [] p = p
run (h ∷ hs) p = run hs (happen_in p.phase h p.log)
