-- ===== src/Http/Logged.antt =====
-- The status and the bytes in the log, against what reached the client.
use arda_wed_gateway.Base.{
  ℕ, ◌+◌, ◌≡◌, ◌≢◌, refl, true, false, List, [], ◌∷◌, ◌++◌, arith, ◌==◌, leb, if◌then◌else◌, All,
  ap,
}
use arda_wed_gateway.Base.Text.{Text}
use arda_wed_gateway.Http.Recorder.{
  Sent, header, bytes, hijacked, StatusRecorder, new_status_recorder, write_header, write, hijack,
  Write, writes_header, writes, hijacks, flushes, do_write, serve, next_request_id,
  with_request_logging,
}

-- The status that net/http sends: the first header written, 200 for a body with no header or for
-- nothing at all; a connection that is taken over is one that switched protocols.
abbrev pub wire_status : List Sent → ℕ
wire_status [] = 200
wire_status (header code ∷ ss) = code
wire_status (bytes content ∷ ss) = 200
wire_status (hijacked ∷ ss) = 101

-- The bytes that the writer took.
unfoldable pub taken : List Write → ℕ
taken [] = 0
taken (writes content n ∷ ws) = n + taken ws
taken (writes_header code ∷ ws) = taken ws
taken (hijacks can ∷ ws) = taken ws
taken (flushes ∷ ws) = taken ws

abbrev pub IsHeaderless : Write → Type 0
IsHeaderless (writes_header code) = ⊥
IsHeaderless (writes content n) = Unit {0}
IsHeaderless (hijacks can) = Unit {0}
IsHeaderless flushes = Unit {0}

-- A header, if the handler writes one, is the first thing that it does to its writer.
abbrev pub IsOrderly : List Write → Type 0
IsOrderly [] = Unit {0}
IsOrderly (writes_header code ∷ ws) = (code ≢ 0) × All IsHeaderless ws
IsOrderly (writes content n ∷ ws) = All IsHeaderless ws
IsOrderly (hijacks can ∷ ws) = All IsHeaderless ws
IsOrderly (flushes ∷ ws) = All IsHeaderless ws

-- The recorder's status is the one on the wire, and 0 while nothing was sent.
abbrev InStep : ℕ → List Sent → Type 0
InStep n [] = n ≡ 0
InStep n (s ∷ ss) = (n ≢ 0) × (wire_status (s ∷ ss) ≡ n)

sends :
    (n : ℕ) (s : Sent) (ss : List Sent)
    → wire_status (s ∷ []) ≢ 0
    → InStep n ss
    → InStep (if n == 0 then wire_status (s ∷ []) else n) (ss ++ (s ∷ []))
sends n s [] z h = ground arith
sends n s (header code ∷ ss) z h = ground arith
sends n s (bytes content ∷ ss) z h = ground arith
sends n s (hijacked ∷ ss) z h = ground arith

do_write-InStep :
    (w : Write) (r : StatusRecorder)
    → IsHeaderless w
    → InStep r.status r.sent
    → InStep (do_write w r).status (do_write w r).sent
unfolding do_write write hijack
do_write-InStep (writes_header code) r p h = elim p [ ]
do_write-InStep (writes content n) r p h = sends r.status (bytes content) r.sent (omega arith) h
do_write-InStep (hijacks true) r p h = sends r.status hijacked r.sent (omega arith) h
do_write-InStep (hijacks false) r p h = h
do_write-InStep flushes r p h = h

serve-InStep :
    (ws : List Write) (r : StatusRecorder)
    → All IsHeaderless ws
    → InStep r.status r.sent
    → InStep (serve ws r).status (serve ws r).sent
unfolding serve
serve-InStep [] r p h = h
serve-InStep (w ∷ ws) r p h = serve-InStep ws (do_write w r) p.1 (do_write-InStep w r p.0 h)

start-InStep :
    (ws : List Write)
    → IsOrderly ws
    → InStep (serve ws new_status_recorder).status (serve ws new_status_recorder).sent
unfolding new_status_recorder serve
start-InStep [] p = refl
start-InStep (writes_header code ∷ ws) p =
    serve-InStep ws (do_write (writes_header code) new_status_recorder) p.1
      (unfold do_write write_header in (p.0, refl))
start-InStep (writes content n ∷ ws) p =
    serve-InStep (writes content n ∷ ws) new_status_recorder (tt, p) refl
start-InStep (hijacks can ∷ ws) p = serve-InStep (hijacks can ∷ ws) new_status_recorder (tt, p) refl
start-InStep (flushes ∷ ws) p = serve-InStep (flushes ∷ ws) new_status_recorder (tt, p) refl

shown_status : (n : ℕ) (ss : List Sent) → InStep n ss → (if n == 0 then 200 else n) ≡ wire_status ss
shown_status n [] h = ground arith
shown_status n (s ∷ ss) h = ground arith

serve-bytes : (ws : List Write) (r : StatusRecorder) → (serve ws r).bytes ≡ r.bytes + taken ws
unfolding serve taken do_write write_header write hijack
serve-bytes [] r = omega arith
serve-bytes (writes_header code ∷ ws) r =
    omega (arith, serve-bytes ws (do_write (writes_header code) r))
serve-bytes (writes content n ∷ ws) r =
    omega (arith, serve-bytes ws (do_write (writes content n) r))
serve-bytes (hijacks true ∷ ws) r = omega (arith, serve-bytes ws (do_write (hijacks true) r))
serve-bytes (hijacks false ∷ ws) r = omega (arith, serve-bytes ws r)
serve-bytes (flushes ∷ ws) r = omega (arith, serve-bytes ws r)

-- For a handler that writes a header only as the first thing it does, if at all, the log line has the
-- status that the client received and the number of bytes that its writer took, under the identity
-- that the handler was given; it is an info line exactly for a status of at least 400.
pub logged_as_sent :
    (next : Text → List Write) (stamp method path : Text) (counter : ℕ)
    → IsOrderly (next (next_request_id stamp counter).1)
    → let (counter1, (rec, line)) = with_request_logging next stamp method path counter in
      (line.request_id ≡ (next_request_id stamp counter).1)
      × (line.status ≡ wire_status rec.sent)
      × (line.bytes ≡ taken (next (next_request_id stamp counter).1))
      × (line.info ≡ leb 400 (wire_status rec.sent))
unfolding with_request_logging
logged_as_sent next stamp method path counter p =
    let ws : List Write = next (next_request_id stamp counter).1 in
    let same = shown_status _ _ (start-InStep ws p) in
    (
      refl,
      same,
      unfold new_status_recorder in (omega (arith, serve-bytes ws new_status_recorder)),
      ap (leb 400) same,
    )
