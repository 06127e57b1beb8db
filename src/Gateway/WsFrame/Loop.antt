-- ===== src/Gateway/WsFrame/Loop.antt =====
-- hub.go: ReadLoop, which reads the frames of one web client until it ends.
use arda_wed_gateway.Base.{
  ℕ, zero, suc, ◌%◌, ◌≤◌, ◌<◌, ◌≢◌, Bool, true, false, Option, none, some, List, [], ◌∷◌, leb, ltb,
  ◌==◌, drop, length, if◌then◌else◌, arith,
}
use arda_wed_gateway.Gateway.WsFrame.{
  ws_opcode_close, FrameError, ReadFull, short, full, read_full, and_then, be_from, max_payload,
  payload_too_large, Frame, fails, reads, read_payload, read_mask, read_size, read_header,
  read_frame,
}

-- How the loop ends.
pub data LoopEnd : Type 0 where
  no_deadline client_closed : LoopEnd
  read_error : FrameError → LoopEnd

-- What a round does with the frame it read; `more` is the loop on the bytes that are left.
unfoldable pub after_frame : Frame → (List ℕ → Option LoopEnd) → Option LoopEnd
after_frame (fails err) more = some (read_error err)
after_frame (reads opcode payload rest) more =
    if opcode == ws_opcode_close then some client_closed else more rest

-- One round per member of the list, which says whether SetReadDeadline succeeds in it; `none` where
-- the loop goes on behind the last of them.
unfoldable pub read_loop : FrameError → List Bool → List ℕ → Option LoopEnd
unfolding read_frame after_frame
read_loop end [] bs = none
read_loop end (false ∷ rounds) bs = some no_deadline
read_loop end (true ∷ rounds) bs = after_frame (read_frame end bs) (read_loop end rounds)

-- What a frame leaves of at most `n` bytes.
Leaves : ℕ → Frame → Type 0
Leaves n (fails err) = Unit
Leaves n (reads opcode payload rest) = length rest ≤ n

LeavesRead : ℕ → ReadFull → Type 0
LeavesRead n (short err) = Unit
LeavesRead n (full xs rest) = length rest ≤ n

length-drop : (n : ℕ) (bs : List ℕ) → length (drop n bs) ≤ length bs
length-drop zero bs = omega arith
length-drop (suc n) [] = omega arith
length-drop (suc n) (b ∷ bs) = omega (arith, length-drop n bs)

read_full-Leaves :
    (end : FrameError) (k : ℕ) (bs : List ℕ) → LeavesRead (length bs) (read_full end k bs)
unfolding read_full LeavesRead
read_full-Leaves end k bs = ground (arith, length-drop k bs)

and_then-Leaves :
    (n m : ℕ) (r : ReadFull) (f : List ℕ → List ℕ → Frame)
    → LeavesRead m r
    → ((xs rest : List ℕ) → length rest ≤ m → Leaves n (f xs rest))
    → Leaves n (and_then r f)
unfolding and_then LeavesRead Leaves
and_then-Leaves n m (short err) f h k = tt
and_then-Leaves n m (full xs rest) f h k = k xs rest h

read_payload-Leaves :
    (end : FrameError) (opcode : ℕ) (key : List ℕ) (k : ℕ) (bs : List ℕ)
    → Leaves (length bs) (read_payload end opcode key k bs)
unfolding read_payload Leaves
read_payload-Leaves end opcode key k bs =
    and_then-Leaves _ _ (read_full end k bs) _ (read_full-Leaves end k bs) (λ xs rest h. h)

Leaves-trans : {m n : ℕ} (f : Frame) → m ≤ n → Leaves m f → Leaves n f
unfolding Leaves
Leaves-trans (fails err) h k = tt
Leaves-trans (reads opcode payload rest) h k = omega arith

read_mask-Leaves :
    (end : FrameError) (opcode : ℕ) (masked : Bool) (k : ℕ) (bs : List ℕ)
    → Leaves (length bs) (read_mask end opcode masked k bs)
unfolding read_mask
read_mask-Leaves end opcode false k bs = read_payload-Leaves end opcode [] k bs
read_mask-Leaves end opcode true k bs =
    and_then-Leaves _ _ (read_full end 4 bs) _ (read_full-Leaves end 4 bs)
      (λ key rest h. Leaves-trans _ h (read_payload-Leaves end opcode key k rest))

size_checked-Leaves :
    (end : FrameError) (opcode : ℕ) (masked : Bool) (k : ℕ) (bs : List ℕ)
    → Leaves
        (length bs)
        (if ltb max_payload k then fails payload_too_large else read_mask end opcode masked k bs)
unfolding Leaves
size_checked-Leaves end opcode masked k bs = ground (arith, read_mask-Leaves end opcode masked k bs)

read_size-Leaves :
    (end : FrameError) (opcode : ℕ) (masked : Bool) (k : ℕ) (bs : List ℕ)
    → Leaves (length bs) (read_size end opcode masked k bs)
unfolding read_size
read_size-Leaves end opcode masked k bs = ground (
  arith,
  and_then-Leaves (length bs) _ (read_full end 2 bs) _ (read_full-Leaves end 2 bs)
      (λ ext rest h. Leaves-trans _ h (read_mask-Leaves end opcode masked (be_from 0 ext) rest)),
  and_then-Leaves (length bs) _ (read_full end 8 bs) _ (read_full-Leaves end 8 bs)
      (λ ext rest h. Leaves-trans _ h (size_checked-Leaves end opcode masked (be_from 0 ext) rest)),
  read_mask-Leaves end opcode masked k bs,
)

read_header-Leaves :
    (end : FrameError) (header rest : List ℕ) → Leaves (length rest) (read_header end header rest)
unfolding read_header Leaves
read_header-Leaves end [] rest = tt
read_header-Leaves end (b0 ∷ []) rest = tt
read_header-Leaves end (b0 ∷ b1 ∷ []) rest =
    read_size-Leaves end (b0 % 16) (leb 128 b1) (b1 % 128) rest
read_header-Leaves end (b0 ∷ b1 ∷ b2 ∷ more) rest = tt

read_two-Leaves :
    (end : FrameError) (n : ℕ) (bs : List ℕ) → length bs ≤ suc n → LeavesRead n (read_full end 2 bs)
unfolding read_full LeavesRead
read_two-Leaves end n [] h = tt
read_two-Leaves end n (b0 ∷ []) h = tt
read_two-Leaves end n (b0 ∷ b1 ∷ rest) h = ground arith

-- A frame that is read takes at least one byte off the connection.
read_frame-Leaves :
    (end : FrameError) (n : ℕ) (bs : List ℕ) → length bs ≤ suc n → Leaves n (read_frame end bs)
unfolding read_frame
read_frame-Leaves end n bs h =
    and_then-Leaves n n (read_full end 2 bs) (read_header end) (read_two-Leaves end n bs h)
      (λ header rest k. Leaves-trans _ k (read_header-Leaves end header rest))

after_frame-ends :
    (n : ℕ) (f : Frame) (more : List ℕ → Option LoopEnd)
    → Leaves n f
    → ((rest : List ℕ) → length rest ≤ n → more rest ≢ none)
    → after_frame f more ≢ none
unfolding after_frame Leaves
after_frame-ends n (fails err) more l k = ground arith
after_frame-ends n (reads opcode payload rest) more l k = ground (arith, k rest l)

no_bytes : (end : FrameError) → after_frame (read_frame end []) (read_loop end []) ≢ none
unfolding read_frame read_full after_frame and_then
no_bytes end = ground arith

-- The loop ends: one round more than bytes arrive is enough for it to see the client close, or an
-- error of a deadline, of the connection or of a frame.
pub read_loop-ends :
    (end : FrameError) (rounds : List Bool) (bs : List ℕ)
    → length bs < length rounds
    → read_loop end rounds bs ≢ none
unfolding read_loop
read_loop-ends end [] bs h = absurd (omega arith)
read_loop-ends end (false ∷ rounds) bs h = ground arith
read_loop-ends end (true ∷ []) [] h = no_bytes end
read_loop-ends end (true ∷ []) (b ∷ bs) h = absurd (omega arith)
read_loop-ends end (true ∷ r ∷ rounds) bs h =
    after_frame-ends (length rounds) (read_frame end bs) (read_loop end (r ∷ rounds))
      (read_frame-Leaves end (length rounds) bs (omega arith))
      (λ rest k. read_loop-ends end (r ∷ rounds) rest (omega arith))
