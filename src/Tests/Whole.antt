-- ===== src/Tests/Whole.antt =====
-- The whole gateway at a concrete run.
use arda_wed_gateway.Base.{
  ℕ, ◌≡◌, refl, true, false, none, some, List, [], ◌∷◌, ◌++◌, arith, leb, length,
}
use arda_wed_gateway.Base.Map.{Map, lookup, insert}
use arda_wed_gateway.Base.Text.{Text, codes, decimal, text_eq}
use arda_wed_gateway.Gateway.Telnet.{state_data, filter_data, filter_byte}
use arda_wed_gateway.Gateway.Decoder.{decode}
use arda_wed_gateway.Base.Word.{pos}
use arda_wed_gateway.Config.{Config, load}
use arda_wed_gateway.State.{MemoryStore, new_memory_store, upsert_delta, get_latest}
use arda_wed_gateway.State.Service.{StateService, loaded_or}
use arda_wed_gateway.Suggestions.{is_active, recent_of}
use arda_wed_gateway.Suggestions.Answer.{Json, decoded}
use arda_wed_gateway.Gateway.Manager.{Clock, broadcast}
use arda_wed_gateway.Gateway.Manager.Upstream.{reads}
use arda_wed_gateway.Gateway.Manager.Texts.{texts}
use arda_wed_gateway.Http.Session.{SessionConnectRequest, handle_health}
use arda_wed_gateway.Http.Response.{Reply}
use arda_wed_gateway.Http.Recorder.{next_request_id}
use arda_wed_gateway.Http.Logged.{wire_status}
use arda_wed_gateway.State.Sqlite.Load.{scanned, last_item, load_equipment, load_equipment-lookup}
use arda_wed_gateway.App.{
  Platform, post_session_connect, post_commands_enqueue, get_health, App, Reader, json, handle,
  serve,
}
use arda_wed_gateway.App.Steps
use arda_wed_gateway.App.Steps.{
  new_app, reader_at, read_by, tick, fire_in, begin_in, end_in, serves, ticks, fires, begins, ends,
  Reach, here, next,
}
use arda_wed_gateway.App.Sound.{IsSound, Reach-IsSound}
use arda_wed_gateway.App.Fed.{IsIngested}
use arda_wed_gateway.App.Pipeline.{lines_kept, Reach-prompt}
use arda_wed_gateway.App.Logged.{serve_logged, serve_logged-reply}
use arda_wed_gateway.App.Shows.{round_texts, read_by-texts}
use arda_wed_gateway.App.Contract.{contract_of, Conforms}
use arda_wed_gateway.App.Conforms.{handle-Conforms}
use arda_wed_gateway.Http.Identities.{next_request_id-injective}
use arda_wed_gateway.Suggestions.Prompt.{build_prompt}
use arda_wed_gateway.Suggestions.Recent.{last_lines, all_lines}
use arda_wed_gateway.Suggestions.Run.{begin_job}

abbrev at : ℕ → Clock
at n = record { now = n; stamp = codes "t" }

-- The store in memory, which nothing outside disturbs.
abbrev in_memory : StateService MemoryStore (Unit {0})
in_memory = record {
  upsert = λ now id delta m. (upsert_delta id delta m, true);
  load = λ now m. loaded_or (get_latest m);
}

abbrev one_command : Text → Json
one_command text = decoded (record {
  commands = text ∷ [];
  reason = codes "r";
  expected_outcome = codes "o";
  generated_at = [];
})

abbrev platform : Platform
platform = record {
  charset = record { decoder = λ bytes. some bytes; encoder = λ text. some text };
  lower = λ text. text;
  aliases = [];
  format_time = λ n. codes "time";
  quote = λ text. text;
  seconds = λ n. codes "0";
  decode = one_command;
}

abbrev defaults : Config
defaults = load (λ key. []) (λ text. none) (λ text. none)

abbrev to_mud : SessionConnectRequest
to_mud = record { host = codes "mud"; port = pos 4000; credential_alias = [] }

abbrev mud : Text
mud = codes "s-1"

-- A client connects, the game says something, the debounce ends, and the model is asked.
abbrev connected : App MemoryStore
connected =
    (serve in_memory platform (codes "t") (at 1) (post_session_connect (some to_mud) (some 7))
      (new_app defaults new_memory_store)).0

abbrev heard : App MemoryStore
heard =
    read_by in_memory platform (reader_at 0 connected.readers) 0 (reads (codes "Exits") none) (at 2)
      tt connected

abbrev due : App MemoryStore
due = fire_in in_memory platform mud heard

due_started : is_active mud 1 due.router.suggestions.started ≡ true
unfolding is_active fire_in lookup read_by reader_at serve text_eq new_app filter_data filter_byte
    broadcast decode insert decimal
due_started = refl

-- The job of the game's text, which began.
abbrev asked : App MemoryStore
asked = begin_in in_memory platform tt (codes "no state") mud 1 3 due

due_fresh : is_active mud 1 due.begun ≡ false
unfolding is_active fire_in read_by reader_at serve new_app text_eq
due_fresh = refl

asked-Reach : Reach in_memory platform defaults new_memory_store asked
asked-Reach =
    next
      (next
        (next (next here (serves (codes "t") (at 1) (post_session_connect (some to_mud) (some 7))))
          (Steps.reads 0 (reads (codes "Exits") none) (at 2) tt))
        (fires mud))
      (begins tt (codes "no state") mud 1 3 due_started due_fresh)

Reach-IsSound_example : IsSound asked
Reach-IsSound_example = Reach-IsSound in_memory platform asked-Reach

Reach-prompt_example :
    let shown = texts asked.router.manager.effects in
    let lines = last_lines (lines_kept defaults) (all_lines mud shown) in
    let loaded = in_memory.load tt asked.router.state in
    IsIngested in_memory platform new_memory_store shown asked.router.state
    × (recent_of mud asked.router.suggestions.service ≡ lines)
    × ((begin_job loaded (codes "r") mud 2 4 asked.router.suggestions.service).1
        ≡ build_prompt lines loaded)
Reach-prompt_example = Reach-prompt in_memory platform tt (codes "r") mud 2 4 asked-Reach

abbrev reader : Reader
reader = record { session_id = mud; filter = record { state = state_data } }

read_by-texts_example :
    texts
      (read_by in_memory platform
        (some reader)
        0
        (reads (codes "Exits") none)
        (at 2)
        tt
        connected).router.manager.effects
    ≡ round_texts platform.charset.decoder mud (reads (codes "Exits") none) reader.filter
      ++ texts connected.router.manager.effects
read_by-texts_example =
    read_by-texts in_memory platform reader 0 (reads (codes "Exits") none) (at 2) tt connected

handle-Conforms_example :
    Conforms
      (codes "r")
      (contract_of {M = Unit {0}} (post_commands_enqueue (some (codes "look"))))
      (handle in_memory platform
        (codes "r")
        (at 3)
        (post_commands_enqueue (some (codes "look")))
        asked.router).1
handle-Conforms_example =
    handle-Conforms in_memory platform (codes "r") (at 3)
      (post_commands_enqueue (some (codes "look"))) asked.router

abbrev seventh : ℕ
seventh = 7

next_request_id-injective_example : seventh ≡ seventh
next_request_id-injective_example =
    next_request_id-injective (codes "t") (codes "t") seventh seventh (omega arith) (omega arith)
      refl

abbrev no_bytes : Reply → List ℕ
no_bytes reply = []

health_reply : Reply
health_reply =
    handle_health (next_request_id (codes "t") asked.router.counter).1 (codes "t") asked.router.cfg

is_health :
    (handle in_memory platform
      (next_request_id (codes "t") asked.router.counter).1
      (at 3)
      get_health
      (record asked.router { counter = (next_request_id (codes "t") asked.router.counter).0 })).1
    ≡ json health_reply
unfolding handle health_reply
is_health = refl

serve_logged-reply_example :
    let (rec, line) =
      serve_logged no_bytes length in_memory platform
        (codes "GET")
        (codes "/api/v0/health")
        (codes "t")
        (at 3)
        get_health
        asked.router in
    (line.request_id ≡ health_reply.meta.request_id)
    × (line.status ≡ health_reply.status)
    × (wire_status rec.sent ≡ health_reply.status)
    × (line.bytes ≡ length (no_bytes health_reply))
    × (line.info ≡ leb 400 health_reply.status)
serve_logged-reply_example =
    serve_logged-reply no_bytes length in_memory platform (codes "GET") (codes "/api/v0/health")
      (codes "t") (at 3) get_health asked.router health_reply is_health

abbrev worn : List (Text × Text)
worn =
    (codes "wield", codes "knife")
    ∷ (codes "head", codes "hat")
    ∷ (codes "wield", codes "sword")
    ∷ []

load_equipment-lookup_example :
    (m : Map Text) × (load_equipment false (scanned worn) false ≡ some m)
    × ((k : Text) → lookup k m ≡ last_item k worn)
load_equipment-lookup_example = load_equipment-lookup worn
