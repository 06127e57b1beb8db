-- ===== src/Tests/Requests.antt =====
-- The HTTP API at concrete requests.
use arda_wed_gateway.Base.{ℕ, ◌≡◌, refl, true, false, some, List, [], ◌∷◌, arith}
use arda_wed_gateway.Base.Text.{Text, codes, text_eq}
use arda_wed_gateway.Base.Text.Search.{split_on}
use arda_wed_gateway.Base.Text.Space.{is_blank, trim_space, trim_left, trim_right}
use arda_wed_gateway.Base.Word.{pos}
use arda_wed_gateway.Gateway.Hub.{find, is_registered}
use arda_wed_gateway.Gateway.Metrics.{new_metrics}
use arda_wed_gateway.Gateway.Event.{TerminalEvent}
use arda_wed_gateway.Gateway.Manager.{Clock, Manager, zero_status, new_manager}
use arda_wed_gateway.Gateway.Manager.Commands
use arda_wed_gateway.Gateway.Manager.Invariant.{IsValid}
use arda_wed_gateway.Gateway.Manager.History.{
  Call, connects, enqueues, disconnects, Charset, run, run-IsValid,
}
use arda_wed_gateway.Gateway.Manager.Sessions.{waiting}
use arda_wed_gateway.Http.Session.{
  SessionConnectRequest, handle_session_connect, handle_session_disconnect, handle_enqueue_command,
}
use arda_wed_gateway.Http.Answers.{
  connect_code, disconnect_code, enqueue_code, waiting_after, answers,
}
use arda_wed_gateway.Http.Terminal.{
  Others, join_hub, tell, UpgradeRequest, upgraded, attached, asks_upgrade, header_contains_token,
  has_part, open_terminal, close_terminal,
}
use arda_wed_gateway.Http.Attached.{
  holding, greeting, Tells, tell-Tells, silent-Tells, Tells-IsValid, greeting-IsValid,
  join_hub-IsValid, client_life,
}

abbrev at : ℕ → Clock
at n = record { now = n; stamp = codes "t" }

-- Time as a text, and lower case, for texts that are in it.
abbrev shown_time : ℕ → Text
shown_time n = codes "time"

abbrev as_is : Text → Text
as_is s = s

abbrev to_mud : SessionConnectRequest
to_mud = record { host = codes "mud"; port = pos 4000; credential_alias = [] }

abbrev plain_charset : Charset
plain_charset = record { decoder = λ bytes. some bytes; encoder = λ text. some text }

abbrev first_calls : List (Clock × Call)
first_calls =
    (at 1, connects (some 7) (codes "mud") (pos 4000)) ∷ (at 2, enqueues (codes "look")) ∷ []

abbrev served : Manager
served = run plain_charset first_calls (new_manager 2 new_metrics)

answers_example :
    ((handle_session_connect shown_time (codes "r") (some to_mud) (some 8) (at 3) served).1.status
      ≡ connect_code (some to_mud) (some 8) served.session)
    × ((handle_session_disconnect shown_time (codes "r") (at 3) served).1.status
        ≡ disconnect_code served.session)
    × ((handle_enqueue_command (codes "r") (some (codes "north")) (at 3) served).1.status
        ≡ enqueue_code (some (codes "north")) served.session)
    × (waiting (handle_enqueue_command (codes "r") (some (codes "north")) (at 3) served).0.session
        ≡ waiting_after (some (codes "north")) served.session)
answers_example =
    answers shown_time (codes "r") (some to_mud) (some 8) (some (codes "north")) (at 3) served

abbrev upgrade_request : UpgradeRequest
upgrade_request = record {
  connection = codes "keep-alive, upgrade";
  upgrade = codes "websocket";
  key = codes "abc";
}

upgrade_request_asks : asks_upgrade as_is upgrade_request ≡ true
unfolding asks_upgrade header_contains_token has_part split_on trim_space trim_left trim_right
    text_eq
upgrade_request_asks = refl

upgrade_request_key : is_blank upgrade_request.key ≡ false
unfolding trim_space trim_left trim_right text_eq
upgrade_request_key = refl

abbrev last_calls : List (Clock × Call)
last_calls = (at 5, enqueues (codes "north")) ∷ (at 6, disconnects) ∷ []

-- Another client's command is accepted while the new client joins.
abbrev accepted_event : TerminalEvent
accepted_event = Commands.accepted_event zero_status (codes "look") 1 (codes "t")

abbrev busy_others : Others
busy_others = record { behind_add = tell accepted_event; behind_status = λ m. m }

joining_ok : IsValid (join_hub served).0
joining_ok = join_hub-IsValid served (run-IsValid plain_charset 2 first_calls)

first_told :
    Tells served.hub.next_id
      (accepted_event ∷ [])
      (join_hub served).0
      (busy_others.behind_add (join_hub served).0)
first_told = tell-Tells served.hub.next_id accepted_event _ joining_ok

then_silent :
    let m1 = (greeting busy_others (at 4) served).0 in
    Tells served.hub.next_id [] m1 (busy_others.behind_status m1)
then_silent =
    silent-Tells served.hub.next_id _
      (greeting-IsValid busy_others (at 4) served (Tells-IsValid _ _ _ _ first_told))

client_life_example :
    let i = served.hub.next_id in
    let e = (greeting busy_others (at 4) served).1 in
    let (opened, shake) =
      open_terminal busy_others as_is (codes "r") upgrade_request upgraded (at 4) served in
    let closed = close_terminal i (run plain_charset last_calls opened) in
    (shake ≡ attached i)
    × (find i opened.hub.clients ≡ some (holding i (accepted_event ∷ e ∷ [])))
    × IsValid opened
    × IsValid closed
    × (is_registered (find i closed.hub.clients) ≡ false)
client_life_example =
    client_life busy_others (accepted_event ∷ []) [] as_is (codes "r") upgrade_request (at 4) served
      plain_charset last_calls (run-IsValid plain_charset 2 first_calls) upgrade_request_asks
      upgrade_request_key (omega arith) first_told then_silent
