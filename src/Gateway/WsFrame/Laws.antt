-- ===== src/Gateway/WsFrame/Laws.antt =====
-- What the reader returns for the frames that writeTextFrame and a client write.
use arda_wed_gateway.Base.{
  ℕ, zero, suc, ◌+◌, ◌*◌, ◌/◌, ◌%◌, ◌^◌, ◌<◌, ◌≡◌, refl, ap, bit_xor, Bool, true, ◌&&◌, List, [],
  ◌∷◌, ◌++◌, ◌==◌, ==_iff, take, drop, length, length-append, arith,
}
use arda_wed_gateway.Base.Word.{IsByte}
use arda_wed_gateway.Gateway.WsFrame.{put_be, be_from, FrameError, full, read_full}

-- A test of every number under a bound, which evaluation decides.
passes_under : (ℕ → Bool) → ℕ → Bool
passes_under test zero = true
passes_under test (suc bound) = passes_under test bound && test bound

passes_under-passes :
    (test : ℕ → Bool) (bound a : ℕ) → a < bound → passes_under test bound ≡ true → test a ≡ true
unfolding passes_under
passes_under-passes test (suc bound) a lt all = ground (arith, passes_under-passes test bound a)
passes_under-passes test zero a lt all = absurd (omega arith)

abbrev restores : ℕ → ℕ → Bool
restores byte key = bit_xor (bit_xor byte key) key == byte

restores_all : passes_under (λ byte. passes_under (restores byte) 256) 256 ≡ true
unfolding passes_under
restores_all = refl

-- A byte of a mask that is applied again gives the byte of the payload back.
pub xor_twice : (byte key : ℕ) → IsByte byte → IsByte key → bit_xor (bit_xor byte key) key ≡ byte
xor_twice byte key hb hk =
    let row : passes_under (restores byte) 256 ≡ true =
      passes_under-passes (λ b. passes_under (restores b) 256) 256 byte hb restores_all in
    (==_iff _ byte).0 (passes_under-passes (restores byte) 256 key hk row)

be_from-append :
    (acc : ℕ) (xs : List ℕ) (b : ℕ) → be_from acc (xs ++ (b ∷ [])) ≡ be_from acc xs * 256 + b
unfolding be_from
be_from-append acc [] b = refl
be_from-append acc (x ∷ xs) b = be_from-append (acc * 256 + x) xs b

pub be_from-put_be : (k n : ℕ) → n < 256 ^ k → be_from 0 (put_be k n) ≡ n
unfolding put_be be_from
be_from-put_be zero n h = omega arith
be_from-put_be (suc k) n h = omega (
  arith,
  be_from-append 0 (put_be k (n / 256)) (n % 256),
  be_from-put_be k (n / 256) (omega arith),
)

pub length-put_be : (k n : ℕ) → length (put_be k n) ≡ k
unfolding put_be
length-put_be zero n = refl
length-put_be (suc k) n =
    omega (arith, length-append (put_be k (n / 256)) (n % 256 ∷ []), length-put_be k (n / 256))

take-length : {A : Type 0} (xs ys : List A) → take (length xs) (xs ++ ys) ≡ xs
take-length [] ys = refl
take-length (x ∷ xs) ys = ap (◌∷◌ x) (take-length xs ys)

drop-length : {A : Type 0} (xs ys : List A) → drop (length xs) (xs ++ ys) ≡ ys
drop-length [] ys = refl
drop-length (x ∷ xs) ys = drop-length xs ys

-- A read of as many bytes as were written in one piece.
pub read_full-append :
    (end : FrameError) (n : ℕ) (xs ys : List ℕ)
    → length xs ≡ n
    → read_full end n (xs ++ ys) ≡ full xs ys
unfolding read_full
read_full-append end n xs ys e =
    rw⁻¹ e (ground (arith, length-append xs ys, take-length xs ys, drop-length xs ys))
