-- ===== src/Gateway/WsFrame.antt =====
-- backend/internal/gateway/wsframe.go: the frames of the web clients' connections.
-- A connection that is read is the bytes that still arrive, and the error that comes after them.
pub mod Laws
pub mod RoundTrip
pub mod Loop
pub mod Pump
use arda_wed_gateway.Base.{
  ℕ, zero, suc, ◌+◌, ◌*◌, ◌/◌, ◌%◌, ◌^◌, bit_xor, Bool, true, false, List, [], ◌∷◌, ◌++◌, ltb, leb,
  ◌==◌, take, drop, length, if◌then◌else◌,
}
use arda_wed_gateway.Base.Text.{Text, codes}
use arda_wed_gateway.Base.Text.Utf8.{to_bytes}

abbrev pub ws_opcode_close : ℕ
ws_opcode_close = 0x8

abbrev pub ws_opcode_text : ℕ
ws_opcode_text = 0x1

-- WebsocketAcceptKey, with the digest of crypto/sha1 and the encoding of encoding/base64.
unfoldable pub websocket_accept_key : (List ℕ → List ℕ) → (List ℕ → Text) → Text → Text
unfolding to_bytes
websocket_accept_key sha1 base64 key =
    base64 (sha1 (to_bytes (key ++ codes "258EAFA5-E914-47DA-95CA-C5AB0DC85B11")))

-- `binary.BigEndian.PutUint16` and `PutUint64`: the last `k` bytes of a number.
unfoldable pub put_be : ℕ → ℕ → List ℕ
put_be zero n = []
put_be (suc k) n = put_be k (n / 256) ++ (n % 256 ∷ [])

-- `binary.BigEndian.Uint16` and `Uint64`, behind the bytes that are read already.
unfoldable pub be_from : ℕ → List ℕ → ℕ
be_from acc [] = acc
be_from acc (b ∷ bs) = be_from (acc * 256 + b) bs

-- The header and the size that writeTextFrame puts before a payload.
unfoldable pub frame_size : ℕ → List ℕ
unfolding put_be
frame_size n =
    if leb n 125 then n ∷ [] else (if leb n 65535 then 126 ∷ put_be 2 n else 127 ∷ put_be 8 n)

-- The bytes that writeTextFrame writes.
unfoldable pub write_text_frame : List ℕ → List ℕ
unfolding frame_size
write_text_frame payload = (0x80 + ws_opcode_text) ∷ (frame_size (length payload) ++ payload)

pub data FrameError : Type 0 where
  eof unexpected_eof read_failed payload_too_large : FrameError

-- `io.ReadFull` of `n` bytes, where `end` is what the connection answers after its last byte.
pub data ReadFull : Type 0 where
  short : FrameError → ReadFull
  full : List ℕ → List ℕ → ReadFull

unfoldable pub short_error : FrameError → List ℕ → FrameError
short_error eof (b ∷ bs) = unexpected_eof
short_error eof [] = eof
short_error unexpected_eof bs = unexpected_eof
short_error read_failed bs = read_failed
short_error payload_too_large bs = payload_too_large

unfoldable pub read_full : FrameError → ℕ → List ℕ → ReadFull
unfolding short_error
read_full end n bs =
    if leb n (length bs) then full (take n bs) (drop n bs) else short (short_error end bs)

-- What readFrame returns: an error, or the opcode, the payload and what is still to be read.
pub data Frame : Type 0 where
  fails : FrameError → Frame
  reads : ℕ → List ℕ → List ℕ → Frame

-- The early return on a read that fails.
unfoldable pub and_then : ReadFull → (List ℕ → List ℕ → Frame) → Frame
and_then (short err) f = fails err
and_then (full xs rest) f = f xs rest

-- `payload[i] ^= maskKey[i%4]`, for the key turned to the next index.
unfoldable pub unmask : ℕ → ℕ → ℕ → ℕ → List ℕ → List ℕ
unmask k0 k1 k2 k3 [] = []
unmask k0 k1 k2 k3 (b ∷ bs) = bit_xor b k0 ∷ unmask k1 k2 k3 k0 bs

unfoldable pub unmask_by : List ℕ → List ℕ → List ℕ
unfolding unmask
unmask_by (k0 ∷ k1 ∷ k2 ∷ k3 ∷ []) payload = unmask k0 k1 k2 k3 payload
unmask_by key payload = payload

-- The payload, with the key `[]` of a frame without a mask. The source skips the read of no byte.
unfoldable pub read_payload : FrameError → ℕ → List ℕ → ℕ → List ℕ → Frame
unfolding read_full unmask_by and_then
read_payload end opcode key n bs =
    and_then (read_full end n bs) (λ payload rest. reads opcode (unmask_by key payload) rest)

-- The mask key of four bytes, where the header announces one.
unfoldable pub read_mask : FrameError → ℕ → Bool → ℕ → List ℕ → Frame
unfolding read_payload read_full
read_mask end opcode false n bs = read_payload end opcode [] n bs
read_mask end opcode true n bs =
    and_then (read_full end 4 bs) (λ key rest. read_payload end opcode key n rest)

abbrev pub max_payload : ℕ
max_payload = 2 ^ 20

unfoldable pub read_size : FrameError → ℕ → Bool → ℕ → List ℕ → Frame
unfolding read_mask be_from read_full
read_size end opcode masked n bs =
    if n == 126
    then and_then (read_full end 2 bs)
        (λ ext rest. read_mask end opcode masked (be_from 0 ext) rest)
    else (if n == 127
        then and_then (read_full end 8 bs) (λ ext rest.
          if ltb max_payload (be_from 0 ext)
          then fails payload_too_large
          else read_mask end opcode masked (be_from 0 ext) rest)
        else read_mask end opcode masked n bs)

unfoldable pub read_header : FrameError → List ℕ → List ℕ → Frame
unfolding read_size
read_header end (b0 ∷ b1 ∷ []) rest = read_size end (b0 % 16) (leb 128 b1) (b1 % 128) rest
read_header end header rest = fails end

-- readFrame
unfoldable pub read_frame : FrameError → List ℕ → Frame
unfolding read_header read_full
read_frame end bs = and_then (read_full end 2 bs) (read_header end)
