-- ===== src/Tests/Lifecycle.antt =====
-- The process, the opening of the database and the events at concrete inputs.
use arda_wed_gateway.Base.{
  ◌↔◌, ◌≡◌, ◌&&◌, not, true, false, none, some, List, [], ◌∷◌, if◌then◌else◌,
}
use arda_wed_gateway.Base.Text.{Text, codes, text_eq}
use arda_wed_gateway.Base.Word.{pos}
use arda_wed_gateway.State.Sqlite.Open.{
  Driver, memory_path, store_of, new_sqlite_store, ready, new_sqlite_store-ready,
}
use arda_wed_gateway.Gateway.Event.{TerminalEvent}
use arda_wed_gateway.Gateway.Event.Json.{object_of, event_of}
use arda_wed_gateway.Gateway.Event.Json.Described.{
  is_described, positive, event_of-object_of, object_of-described,
}
use arda_wed_gateway.Gateway.Metrics.{new_metrics}
use arda_wed_gateway.Gateway.Manager.{Clock, Status, new_manager, connected_event}
use arda_wed_gateway.Gateway.Manager.Disconnect.{disconnected_event}
use arda_wed_gateway.Gateway.Manager.Commands.{
  rejected_event, accepted_event, send_failed_event, build_status_event,
}
use arda_wed_gateway.Gateway.Manager.Upstream.{output_event}
use arda_wed_gateway.Process.{
  Happening, notified, serve_returns, server_closed, shutdown_returns, signal, started, exited, run,
}
use arda_wed_gateway.Process.Story.{IsClean, run-exits}

-- A driver whose databases are the names of their tables.
abbrev driver : Driver (List Text)
driver = record {
  mkdir_all = λ path. true;
  dir = λ path. path;
  sql_open = λ path. some [];
  exec = λ table d. (table.name ∷ d, true);
}

new_sqlite_store-ready_example :
    store_of (new_sqlite_store driver (codes "state.db"))
    ≡ ready driver (if text_eq (codes "state.db") [] then memory_path else codes "state.db")
new_sqlite_store-ready_example = new_sqlite_store-ready driver (codes "state.db")

abbrev ended : TerminalEvent
ended = disconnected_event (codes "manual disconnect") gone 2 (codes "t")
  where
    gone : Status
    gone = record {
      session_id = codes "s-1";
      connected = false;
      queue_depth = 2;
      queue_max = 20;
      last_activity = 1;
    }

event_of-object_of_example : event_of (object_of ended) ≡ ended
event_of-object_of_example = event_of-object_of ended

abbrev linked : Status
linked = record {
  session_id = codes "s-1";
  connected = true;
  queue_depth = 0;
  queue_max = 20;
  last_activity = 1;
}

abbrev clock : Clock
clock = record { now = 1; stamp = codes "t" }

object_of-described_example :
    let status = (build_status_event clock (new_manager 20 new_metrics)).1 in
    (is_described (object_of status)
      ≡ (status.connected && positive status.queue_depth && positive status.queue_max))
    × (is_described (object_of (connected_event (codes "mud") (pos 4000) linked (codes "t")))
        ≡ (positive linked.queue_depth && positive linked.queue_max))
    × (is_described (object_of (disconnected_event (codes "eof") linked 2 (codes "t"))) ≡ false)
    × (is_described (object_of (output_event (codes "s-1") (codes "look") (codes "t")))
        ≡ not (text_eq (codes "look") []))
    × (is_described (object_of (accepted_event linked (codes "look") 1 (codes "t")))
        ≡ (not (text_eq (codes "look") []) && positive 1 && positive linked.queue_max))
    × (is_described (object_of (rejected_event linked 1 20 (codes "t")))
        ≡ (positive 1 && positive 20))
    × (is_described (object_of (send_failed_event (codes "s-1") (codes "look") 1 20 (codes "t")))
        ≡ (not (text_eq (codes "look") []) && positive 1 && positive 20))
object_of-described_example =
    object_of-described clock (new_manager 20 new_metrics) (codes "mud") (pos 4000) linked
      (codes "eof") (codes "s-1") (codes "look") 2 1 20 (codes "t")

-- The night of a process that shuts down well: the server reports the shutdown before it ends.
abbrev night : List Happening
night = notified ∷ signal ∷ serve_returns (some server_closed) ∷ shutdown_returns none ∷ []

run-exits_example : ((run night started).phase ≡ exited 0) ↔ IsClean night
run-exits_example = run-exits night
