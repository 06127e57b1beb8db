-- ===== src/Http/Recorder.antt =====
-- router.go: the writer that records what a handler sends, and the numbering and logging of requests.
use arda_wed_gateway.Base.{
  ℕ, ◌+◌, Bool, true, false, Option, none, some, List, [], ◌∷◌, ◌++◌, ◌==◌, leb, if◌then◌else◌,
}
use arda_wed_gateway.Base.Text.{Text, codes, decimal, text_eq}
use arda_wed_gateway.Base.Word.{pos, add64}

-- `sent` is what reached the writer behind it.
pub data Sent : Type 0 where
  header : ℕ → Sent
  bytes : List ℕ → Sent
  hijacked : Sent

-- statusRecorder
pub record StatusRecorder : Type 0 where
  pub status : ℕ
  pub bytes : ℕ
  pub sent : List Sent

unfoldable pub new_status_recorder : StatusRecorder
new_status_recorder = record { status = 0; bytes = 0; sent = [] }

unfoldable pub write_header : ℕ → StatusRecorder → StatusRecorder
write_header code r = record r { status = code; sent = r.sent ++ (header code ∷ []) }

-- `n` is how many bytes the writer behind it took.
unfoldable pub write : List ℕ → ℕ → StatusRecorder → StatusRecorder
write content n r = record r {
  status = if r.status == 0 then 200 else r.status;
  bytes = r.bytes + n;
  sent = r.sent ++ (bytes content ∷ []);
}

-- `can` says whether the writer behind it is a Hijacker; the result, whether the call reaches it.
unfoldable pub hijack : Bool → StatusRecorder → StatusRecorder × Bool
hijack can r =
    if can
    then (
      record r {
        status = if r.status == 0 then 101 else r.status;
        sent = r.sent ++ (hijacked ∷ []);
      },
      true,
    )
    else (r, false)

-- What a handler does to its writer.
pub data Write : Type 0 where
  writes_header : ℕ → Write
  writes : List ℕ → ℕ → Write
  hijacks : Bool → Write
  flushes : Write

unfoldable pub do_write : Write → StatusRecorder → StatusRecorder
unfolding write_header write hijack
do_write (writes_header code) r = write_header code r
do_write (writes content n) r = write content n r
do_write (hijacks can) r = (hijack can r).0
do_write flushes r = r

unfoldable pub serve : List Write → StatusRecorder → StatusRecorder
unfolding do_write
serve [] r = r
serve (w ∷ ws) r = serve ws (do_write w r)

-- The line that withRequestLogging writes; `info` is its level, which is Debug else.
pub record LogLine : Type 0 where
  pub request_id : Text
  pub method : Text
  pub path : Text
  pub status : ℕ
  pub bytes : ℕ
  pub info : Bool

-- nextRequestID: the number counted up, and the identity.
unfoldable pub next_request_id : Text → ℕ → ℕ × Text
next_request_id stamp counter =
    (add64 counter 1, stamp ++ (codes "-" ++ decimal (pos (add64 counter 1))))

-- requestID: `carried` is what the request's context holds, `none` outside withRequestLogging.
unfoldable pub request_id : Option Text → Text → ℕ → ℕ × Text
unfolding next_request_id
request_id none stamp counter = next_request_id stamp counter
request_id (some id) stamp counter =
    if text_eq id [] then next_request_id stamp counter else (counter, id)

-- withRequestLogging; `next` is what the handler writes for a request of this identity.
unfoldable pub with_request_logging :
    (Text → List Write) → Text → Text → Text → ℕ → ℕ × (StatusRecorder × LogLine)
unfolding next_request_id serve new_status_recorder
with_request_logging next stamp method path counter =
    let (counter1, id) = next_request_id stamp counter in
    let rec = serve (next id) new_status_recorder in
    let status : ℕ = if rec.status == 0 then 200 else rec.status in
    (
      counter1,
      (
        rec,
        record {
          request_id = id;
          method = method;
          path = path;
          status = status;
          bytes = rec.bytes;
          info = leb 400 status;
        },
      ),
    )
