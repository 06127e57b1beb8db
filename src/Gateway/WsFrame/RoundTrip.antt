-- ===== src/Gateway/WsFrame/RoundTrip.antt =====
-- Frames that are written and then read.
use arda_wed_gateway.Base.{
  ℕ, suc, ◌+◌, ◌%◌, ◌<◌, ◌≤◌, ◌≡◌, ◌==◌, bit_xor, refl, sym, ◌∙◌, ap, Bool, true, false, List, [],
  ◌∷◌, ◌++◌, ltb, leb, length, if◌then◌else◌, append_assoc, All, arith,
}
use arda_wed_gateway.Base.Word.{IsByte, word64}
use arda_wed_gateway.Gateway.WsFrame.{
  ws_opcode_text, put_be, frame_size, write_text_frame, FrameError, payload_too_large, fails, reads,
  unmask, unmask_by, read_payload, read_mask, max_payload, read_size, read_header, read_frame,
}
use arda_wed_gateway.Gateway.WsFrame.Laws.{
  xor_twice, be_from-put_be, length-put_be, read_full-append,
}

-- The size in the header, with the bit that announces a mask.
abbrev flagged : Bool → List ℕ → List ℕ
flagged false bs = bs
flagged true [] = []
flagged true (b ∷ bs) = (128 + b) ∷ bs

-- Byte `i` of the key of a mask (RFC 6455, 5.3): the one at `i` modulo 4.
abbrev pub key_at : ℕ → ℕ → ℕ → ℕ → ℕ → ℕ
key_at k0 k1 k2 k3 i =
    if i % 4 == 0 then k0 else if i % 4 == 1 then k1 else if i % 4 == 2 then k2 else k3

-- The bytes from number `i` on, as a client masks them: each by XOR with its byte of the key.
pub masked_from : ℕ → ℕ → ℕ → ℕ → ℕ → List ℕ → List ℕ
masked_from i k0 k1 k2 k3 [] = []
masked_from i k0 k1 k2 k3 (b ∷ bs) =
    bit_xor b (key_at k0 k1 k2 k3 i) ∷ masked_from (suc i) k0 k1 k2 k3 bs

-- The frame of a client, whose payload is masked by the key.
pub client_frame : ℕ → ℕ → ℕ → ℕ → ℕ → List ℕ → List ℕ
client_frame opcode k0 k1 k2 k3 payload =
    (128 + opcode)
    ∷ (flagged true (frame_size (length payload))
        ++ ((k0 ∷ k1 ∷ k2 ∷ k3 ∷ []) ++ masked_from 0 k0 k1 k2 k3 payload))

key_at_turn :
    (k0 k1 k2 k3 i : ℕ) → key_at k0 k1 k2 k3 (suc (suc (suc (suc i)))) ≡ key_at k0 k1 k2 k3 i
key_at_turn k0 k1 k2 k3 i =
    let turn : (suc (suc (suc (suc i)))) % 4 ≡ i % 4 = omega arith in
    ap (λ r. if r == 0 then k0 else if r == 1 then k1 else if r == 2 then k2 else k3) turn

key_at-IsByte :
    (k0 k1 k2 k3 i : ℕ) → All IsByte (k0 ∷ k1 ∷ k2 ∷ k3 ∷ []) → IsByte (key_at k0 k1 k2 k3 i)
key_at-IsByte k0 k1 k2 k3 i (h0, (h1, (h2, (h3, _)))) = ground arith

-- The reader's mask, which turns the key, takes off the mask of a client.
unmask-masked_from :
    (k0 k1 k2 k3 i : ℕ) (bs : List ℕ)
    → All IsByte (k0 ∷ k1 ∷ k2 ∷ k3 ∷ [])
    → All IsByte bs
    → let at = key_at k0 k1 k2 k3 in
      unmask
        (at i)
        (at (suc i))
        (at (suc (suc i)))
        (at (suc (suc (suc i))))
        (masked_from i k0 k1 k2 k3 bs)
      ≡ bs
unfolding unmask masked_from
unmask-masked_from k0 k1 k2 k3 i [] hk h = refl
unmask-masked_from k0 k1 k2 k3 i (b ∷ bs) hk h =
    let at = key_at k0 k1 k2 k3 in
    let rest = unmask-masked_from k0 k1 k2 k3 (suc i) bs hk h.1 in
    let turned : unmask (at (suc i)) (at (suc (suc i))) (at (suc (suc (suc i)))) (at i)
          (masked_from (suc i) k0 k1 k2 k3 bs)
        ≡ bs =
      ap
        (λ k.
          unmask (at (suc i)) (at (suc (suc i))) (at (suc (suc (suc i)))) k
            (masked_from (suc i) k0 k1 k2 k3 bs))
        (sym (key_at_turn k0 k1 k2 k3 i))
      ∙ rest in
    cc (xor_twice b (at i) h.0 (key_at-IsByte k0 k1 k2 k3 i hk), turned)

length-masked_from :
    (i k0 k1 k2 k3 : ℕ) (bs : List ℕ) → length (masked_from i k0 k1 k2 k3 bs) ≡ length bs
unfolding masked_from
length-masked_from i k0 k1 k2 k3 [] = refl
length-masked_from i k0 k1 k2 k3 (b ∷ bs) = ap suc (length-masked_from (suc i) k0 k1 k2 k3 bs)

read_frame_header :
    (end : FrameError) (b0 b1 : ℕ) (rest : List ℕ)
    → read_frame end (b0 ∷ b1 ∷ rest) ≡ read_size end (b0 % 16) (leb 128 b1) (b1 % 128) rest
unfolding read_frame read_header
read_frame_header end b0 b1 rest =
    rw (read_full-append end 2 (b0 ∷ b1 ∷ []) rest refl, read_frame) refl

read_size_small :
    (end : FrameError) (opcode : ℕ) (masked : Bool) (n : ℕ) (rest : List ℕ)
    → n ≤ 125
    → read_size end opcode masked n rest ≡ read_mask end opcode masked n rest
unfolding read_size
read_size_small end opcode masked n rest h = ground arith

read_size_medium :
    (end : FrameError) (opcode : ℕ) (masked : Bool) (n : ℕ) (rest : List ℕ)
    → n ≤ 65535
    → read_size end opcode masked 126 (put_be 2 n ++ rest) ≡ read_mask end opcode masked n rest
unfolding read_size
read_size_medium end opcode masked n rest h =
    rw
      (
        read_full-append end 2 (put_be 2 n) rest (length-put_be 2 n),
        be_from-put_be 2 n (omega arith),
      )
      refl

read_size_large :
    (end : FrameError) (opcode : ℕ) (masked : Bool) (n : ℕ) (rest : List ℕ)
    → n < word64
    → read_size end opcode masked 127 (put_be 8 n ++ rest)
      ≡ (if ltb max_payload n then fails payload_too_large else read_mask end opcode masked n rest)
unfolding read_size
read_size_large end opcode masked n rest h =
    rw
      (
        read_full-append end 8 (put_be 8 n) rest (length-put_be 8 n),
        be_from-put_be 8 n (omega arith),
      )
      refl

-- What the reader makes of a size that was written, with or without the bit of a mask.
read_sized :
    (end : FrameError) (b0 : ℕ) (masked : Bool) (n : ℕ) (rest : List ℕ)
    → n < word64
    → read_frame end (b0 ∷ (flagged masked (frame_size n) ++ rest)) ≡ (
        if ltb max_payload n
        then fails payload_too_large
        else read_mask end (b0 % 16) masked n rest)
unfolding frame_size
read_sized end b0 false n rest h = ground (
  arith,
  read_frame_header end b0 n rest,
  read_frame_header end b0 126 (put_be 2 n ++ rest),
  read_frame_header end b0 127 (put_be 8 n ++ rest),
  read_size_small end (b0 % 16) false n rest,
  read_size_medium end (b0 % 16) false n rest,
  read_size_large end (b0 % 16) false n rest,
)
read_sized end b0 true n rest h = ground (
  arith,
  read_frame_header end b0 (128 + n) rest,
  read_frame_header end b0 (128 + 126) (put_be 2 n ++ rest),
  read_frame_header end b0 (128 + 127) (put_be 8 n ++ rest),
  read_size_small end (b0 % 16) true n rest,
  read_size_medium end (b0 % 16) true n rest,
  read_size_large end (b0 % 16) true n rest,
)

read_payload-append :
    (end : FrameError) (opcode : ℕ) (key payload rest : List ℕ)
    → read_payload end opcode key (length payload) (payload ++ rest)
      ≡ reads opcode (unmask_by key payload) rest
unfolding read_payload
read_payload-append end opcode key payload rest =
    rw (read_full-append end (length payload) payload rest refl, read_payload) refl

read_mask-true :
    (end : FrameError) (opcode k0 k1 k2 k3 n : ℕ) (rest : List ℕ)
    → read_mask end opcode true n (k0 ∷ k1 ∷ k2 ∷ k3 ∷ rest)
      ≡ read_payload end opcode (k0 ∷ k1 ∷ k2 ∷ k3 ∷ []) n rest
unfolding read_mask
read_mask-true end opcode k0 k1 k2 k3 n rest =
    rw (read_full-append end 4 (k0 ∷ k1 ∷ k2 ∷ k3 ∷ []) rest refl, read_mask) refl

-- A text frame that was written, of a payload of less than 2^64 bytes, is read as it was up to the
-- limit of 2^20 bytes, and what follows it is left; above the limit it is refused as too large.
pub read_frame-write_text_frame :
    (end : FrameError) (payload rest : List ℕ)
    → length payload < word64
    → read_frame end (write_text_frame payload ++ rest) ≡ (
        if ltb max_payload (length payload)
        then fails payload_too_large
        else reads ws_opcode_text payload rest)
unfolding write_text_frame read_mask unmask_by
read_frame-write_text_frame end payload rest h =
    ap (λ l. read_frame end (129 ∷ l)) (append_assoc (frame_size (length payload)) payload rest)
    ∙ read_sized end 129 false (length payload) (payload ++ rest) h
    ∙ rw (read_payload-append end 1 [] payload rest) refl

-- A frame with an opcode below 16 and a payload of at most 2^20 bytes, each byte of which a client has
-- masked by XOR with the byte of a key of four bytes at its index modulo 4, is read as the payload
-- was, for every such key, and what follows the frame is left.
pub read_frame-client_frame :
    (end : FrameError) (opcode k0 k1 k2 k3 : ℕ) (payload rest : List ℕ)
    → opcode < 16
    → All IsByte (k0 ∷ k1 ∷ k2 ∷ k3 ∷ [])
    → All IsByte payload
    → length payload ≤ max_payload
    → read_frame end (client_frame opcode k0 k1 k2 k3 payload ++ rest) ≡ reads opcode payload rest
unfolding client_frame unmask_by
read_frame-client_frame end opcode k0 k1 k2 k3 payload rest ho hk hp hn =
    let masked : List ℕ = masked_from 0 k0 k1 k2 k3 payload in
    let size : length masked ≡ length payload = length-masked_from 0 k0 k1 k2 k3 payload in
    ap (λ l. read_frame end ((128 + opcode) ∷ l))
      (append_assoc (flagged true (frame_size (length payload))) (k0 ∷ k1 ∷ k2 ∷ k3 ∷ masked) rest)
    ∙ read_sized end (128 + opcode) true (length payload) (k0 ∷ k1 ∷ k2 ∷ k3 ∷ masked ++ rest)
        (omega arith)
    ∙ ground (
      arith,
      read_mask-true end ((128 + opcode) % 16) k0 k1 k2 k3 (length payload) (masked ++ rest),
      ap (λ n. read_payload end opcode (k0 ∷ k1 ∷ k2 ∷ k3 ∷ []) n (masked ++ rest)) size,
      read_payload-append end opcode (k0 ∷ k1 ∷ k2 ∷ k3 ∷ []) masked rest,
      unmask-masked_from k0 k1 k2 k3 0 payload hk hp,
    )
