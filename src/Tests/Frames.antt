-- ===== src/Tests/Frames.antt =====
-- wsframe.go and the loop of hub.go at concrete bytes.
use arda_wed_gateway.Base.{
  ℕ, ◌≡◌, ◌≢◌, ◌++◌, true, none, List, [], ◌∷◌, All, if◌then◌else◌, ltb, length, arith,
}
use arda_wed_gateway.Base.Word.{IsByte}
use arda_wed_gateway.Gateway.WsFrame.{
  ws_opcode_text, write_text_frame, eof, payload_too_large, fails, reads, max_payload, read_frame,
}
use arda_wed_gateway.Gateway.WsFrame.RoundTrip.{
  client_frame, read_frame-write_text_frame, read_frame-client_frame,
}
use arda_wed_gateway.Gateway.WsFrame.Loop.{read_loop, read_loop-ends}

abbrev greeting : List ℕ
greeting = 104 ∷ 105 ∷ []

abbrev tail : List ℕ
tail = 129 ∷ []

abbrev closing_bytes : List ℕ
closing_bytes = 136 ∷ 0 ∷ []

greeting-AreBytes : All IsByte greeting
greeting-AreBytes = (omega arith, (omega arith, tt))

key-AreBytes : All IsByte (1 ∷ 2 ∷ 3 ∷ 4 ∷ [])
key-AreBytes = (omega arith, (omega arith, (omega arith, (omega arith, tt))))

read_frame-write_text_frame_example : read_frame eof (write_text_frame greeting ++ tail) ≡ (
    if ltb max_payload (length greeting)
    then fails payload_too_large
    else reads ws_opcode_text greeting tail)
read_frame-write_text_frame_example = read_frame-write_text_frame eof greeting tail (omega arith)

read_frame-client_frame_example :
    read_frame eof (client_frame 1 1 2 3 4 greeting ++ tail) ≡ reads 1 greeting tail
read_frame-client_frame_example =
    read_frame-client_frame eof 1 1 2 3 4 greeting tail (omega arith) key-AreBytes greeting-AreBytes
      (omega arith)

read_loop-ends_example : read_loop eof (true ∷ true ∷ true ∷ []) closing_bytes ≢ none
read_loop-ends_example = read_loop-ends eof (true ∷ true ∷ true ∷ []) closing_bytes (omega arith)
