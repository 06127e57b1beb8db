-- ===== src/Lib.antt =====
-- A model of the gateway between a text MUD and its web clients, and what holds of it.
--
-- The program. One session holds a TCP connection to the game. Commands of the web clients wait in a
-- bounded queue, from which one goroutine sends one command per tick. What the game sends is freed of
-- Telnet commands, decoded from CP1251 and broadcast, as are events about the session, to every web
-- client over a WebSocket. Counters and a latency histogram are kept for the metrics page. The same
-- text is parsed into a snapshot of the character, and its last lines go to a service that asks a
-- language model for the next commands.
--
-- The files; those under Gateway are for the package backend/internal/gateway:
--   * Gateway/Telnet.antt: telnet.go. `filter_data` is TelnetFilter.Filter and returns the filter with
--     its new state; `filter_byte` is one round of its loop.
--   * Gateway/Decoder.antt: decoder.go. `decode` is TextDecoder.Decode, `fix_smaug_ya_artifact` is
--     fixSmaugYaArtifact.
--   * Gateway/Metrics.antt: metrics.go. One function per method; an atomic.Int64 is its bit pattern.
--   * Gateway/Queue.antt: queue.go. `enqueue`, `start`, `pop` and `stop_and_drop` are the methods; each
--     takes and returns the metrics that it changes. Gateway/Queue/System.antt puts the calls and the
--     goroutines of CommandQueue.run together as a relation of steps, in any order that the locks and
--     channels allow.
--   * Gateway/Hub.antt: hub.go. A client is a number for its pointer; a channel is a list of at most
--     32 events. `broadcast_one` is one round of the loop in Broadcast.
--   * Gateway/WsFrame.antt: wsframe.go, writeTextFrame and readFrame; Gateway/WsFrame/Loop.antt:
--     Hub.ReadLoop; Gateway/WsFrame/Pump.antt: client.writePump. Gateway/Event/Json.antt: marshalEvent
--     and the tags of TerminalEvent.
--   * Gateway/Manager.antt and the files under Gateway/Manager: manager.go. Connect and the session in
--     Manager.antt, the two halves of disconnect in Disconnect.antt, Enqueue and the worker's sender in
--     Commands.antt, the reader of the connection in Upstream.antt. A call is one transition of the
--     manager's state; Manager/History.antt runs lists of calls, Manager/Rounds.antt cuts the reader's
--     loop into its rounds, and Manager/Delivered.antt follows commands from Enqueue to the connection.
--   * Config.antt: backend/internal/config/config.go. `load` is Load.
--   * State.antt: the types of backend/internal/state/parser.go, mergeSnapshot of store.go and the
--     memoryStore of service.go. State/Sqlite.antt: the SQLiteStore of store.go; `upsert_delta` is
--     UpsertDelta and `get_by_session` GetBySession; State/Sqlite/Open.antt is NewSQLiteStore,
--     State/Sqlite/Load.antt loadEquipment. State/Parser and its files: parser.go.
--     Parser/Scan.antt has its regular expressions, Parser/Prompt, Tags, Equipment and Location one
--     part of Parse each, Parser/Parse.antt Parse itself; State/Service.antt: service.go over
--     either store.
--   * Suggestions.antt: backend/internal/suggestions/service.go. `ingest_terminal` is IngestTerminal,
--     `mark_in_flight` the start of a job's request and `complete` what runJob does behind it;
--     Suggestions/Lines.antt is appendLogLines, Suggestions/Jobs.antt the order of the steps.
--     Suggestions/Prompt.antt is buildPrompt, Suggestions/Answer.antt parseSuggestionJSON and
--     normalizeSuggestionJSON, and Suggestions/Run.antt joins them to runJob; Suggestions/Timers.antt
--     has the timers of the debounce, and Suggestions/Joined.antt all of this together.
--     Suggestions/OpenRouter.antt is openrouter.go;
--     `request_once` is requestOnce, OpenRouter/Transcript.antt writeTranscript and
--     OpenRouter/Attempts.antt RequestSuggestion.
--   * Http and its files: the package backend/internal/httpapi. Http/Session.antt has the handlers of
--     session.go and health.go, Http/Page.antt the metrics page, Http/Views.antt state.go and
--     suggestions.go, Http/Terminal.antt ws.go, Http/Response.antt response.go, Http/Encoded.antt the
--     tags of the payloads; Http/Recorder.antt and Http/Router.antt are router.go. A handler is a function from the state that it meets and the
--     decoded request to the new state and the reply.
--   * App.antt and the files under App: the program as a whole. `handle` is the handler of an endpoint on
--     the state that the components share, `serve` a request with its number; App/Steps.antt has the
--     steps of the goroutines, App/Routes.antt the patterns of router.go, App/Logged.antt writeJSON and
--     the line in the log. App/Contract.antt is the API description, api/openapi/gateway.v0.yaml.
--   * Process.antt: backend/cmd/gateway/main.go, from the configuration to the exit. What happens to the
--     process comes in any order, before signal.Notify and behind it.
--   * Base and its files: 64-bit words, texts as lists of code points, UTF-8 as Go's conversions treat
--     it, association lists for Go's maps, and lists measured by native numbers.
--   * Tests and its files: the theorems at concrete inputs.
--
-- Parameters. The CP1251 decoder and encoder of golang.org/x/text are functions that may fail. The
-- outcome of a dial, of SetReadDeadline and Read, of SetWriteDeadline and Write (to the game, a Write
-- that fails takes the first bytes of the payload, any number of them), and the clock are
-- arguments of the calls, and so are the environment, Go's parsers of numbers and durations, the JSON
-- of an event, the decoders of JSON, strings.ToLower, SHA-1 and base64, the order in which Go ranges
-- over a map, and what net/http and the file system return to the client of the language model: the
-- theorems hold for all of them, and no law is assumed of any. Laws are assumed of the two tables of
-- SQLite and of the JSON of the tags, by the theorems about State/Sqlite.antt only: they are the records
-- IsLawful and IsCodec of that file.
--
-- Bounds and fuel. Counters wrap at 2^64, written out. A port is an integer; lengths and depths are
-- numbers without a bound, which Go's int holds for every list that fits in memory; the maximal depth
-- of a queue is not negative, as the configuration makes sure. `decimal` and the UTF-8 decoder recurse
-- on fuel of one more than the number, or than the length, which each round lowers. The loop over a
-- connection's frames recurses on a list of rounds, and that enough rounds end it is a theorem; the
-- loop over reads from the game is as long as its list of outcomes.
--
-- The regular expressions of the parser are matchers that take as much as fits: in these expressions no
-- character can belong to two neighbouring parts, so there is nothing to try again. They count the
-- characters of a match that are still to pass, and need no fuel.
--
-- Steps of the whole. In App/Steps.antt a request, a tick of the worker, a round of a reader with the call
-- of onTerminal that it makes, and the start and the end of a job are one step each, and steps come in
-- any order; what may come between the parts of one is stated by Queue/System.antt, Hub/Races.antt,
-- Manager/Races.antt and, for the handler of a WebSocket, whose calls on the hub and the manager take
-- locks of their own, by the record Others of Http/Terminal.antt: App.antt has nobody between them. A job's goroutine begins once for its session and number, which holds as long as
-- no session gets 2^64 texts.
--
-- Not modelled: the texts of log lines, but for those of main; the bytes of JSON, floating point; the
-- choice of a pattern by net/http, and what it answers itself; closing the database, which the program
-- never does, and which row GetLatest finds; the sockets of the HTTP server; the frontend.
pub mod Base
pub mod Gateway
pub mod Config
pub mod State
pub mod Suggestions
pub mod Http
pub mod App
pub mod Process
pub mod Tests
