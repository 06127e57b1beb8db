-- ===== src/Base/Text/Utf8.antt =====
-- UTF-8, between the bytes of a Go string and its code points.
use Prim.Native.Nat.{ℕ, zero, suc, ◌+◌, ◌-◌, ◌*◌, ◌/◌, ◌%◌}
use mathlib.Core.Bool.{Bool, true, ◌&&◌}
use mathlib.Core.List.{List, [], ◌∷◌, ◌++◌}
use arda_wed_gateway.Base.Tests.{ltb, leb, ◌==◌, if◌then◌else◌}
use arda_wed_gateway.Base.Lists.{length}

-- U+FFFD, which stands for a byte that starts no code point.
abbrev pub rune_error : ℕ
rune_error = 0xFFFD

encode_rune : ℕ → List ℕ
encode_rune r =
    if ltb r 0x80
    then r ∷ []
    else (if ltb r 0x800
        then (0xC0 + r / 64) ∷ (0x80 + r % 64) ∷ []
        else (if ltb r 0x10000
            then (0xE0 + r / 4096) ∷ (0x80 + r / 64 % 64) ∷ (0x80 + r % 64) ∷ []
            else (0xF0 + r / 262144)
              ∷ (0x80 + r / 4096 % 64)
              ∷ (0x80 + r / 64 % 64)
              ∷ (0x80 + r % 64)
              ∷ []))

-- []byte(s)
unfoldable pub to_bytes : List ℕ → List ℕ
unfolding encode_rune
to_bytes [] = []
to_bytes (r ∷ rs) = encode_rune r ++ to_bytes rs

abbrev is_tail : ℕ → Bool
is_tail b = leb 0x80 b && leb b 0xBF

-- Whether `b` may be the second byte behind the first byte `a` of a code point.
abbrev is_second : ℕ → ℕ → Bool
is_second a b =
    is_tail b
    && (if a == 0xE0
        then leb 0xA0 b
        else (if a == 0xED
            then leb b 0x9F
            else (if a == 0xF0 then leb 0x90 b else (if a == 0xF4 then leb b 0x8F else true))))

-- The code point at the front of a list of bytes that is not empty, and the bytes behind it.
decode_rune : ℕ → List ℕ → ℕ × List ℕ
decode_rune a (b ∷ c ∷ d ∷ rest) =
    if ltb a 0x80
    then (a, b ∷ c ∷ d ∷ rest)
    else (if leb 0xC2 a && leb a 0xDF && is_second a b
        then ((a - 0xC0) * 64 + (b - 0x80), c ∷ d ∷ rest)
        else (if leb 0xE0 a && leb a 0xEF && is_second a b && is_tail c
            then ((a - 0xE0) * 4096 + (b - 0x80) * 64 + (c - 0x80), d ∷ rest)
            else (if leb 0xF0 a && leb a 0xF4 && is_second a b && is_tail c && is_tail d
                then ((a - 0xF0) * 262144 + (b - 0x80) * 4096 + (c - 0x80) * 64 + (d - 0x80), rest)
                else (rune_error, b ∷ c ∷ d ∷ rest))))
decode_rune a (b ∷ c ∷ []) =
    if ltb a 0x80
    then (a, b ∷ c ∷ [])
    else (if leb 0xC2 a && leb a 0xDF && is_second a b
        then ((a - 0xC0) * 64 + (b - 0x80), c ∷ [])
        else (if leb 0xE0 a && leb a 0xEF && is_second a b && is_tail c
            then ((a - 0xE0) * 4096 + (b - 0x80) * 64 + (c - 0x80), [])
            else (rune_error, b ∷ c ∷ [])))
decode_rune a (b ∷ []) =
    if ltb a 0x80
    then (a, b ∷ [])
    else (if leb 0xC2 a && leb a 0xDF && is_second a b
        then ((a - 0xC0) * 64 + (b - 0x80), [])
        else (rune_error, b ∷ []))
decode_rune a [] = if ltb a 0x80 then (a, []) else (rune_error, [])

decode_runes : ℕ → List ℕ → List ℕ
decode_runes zero bytes = []
decode_runes (suc fuel) [] = []
decode_runes (suc fuel) (a ∷ bytes) =
    let (r, rest) = decode_rune a bytes in r ∷ decode_runes fuel rest

-- The code points that ranging over string(bytes) gives: each round takes a byte at least.
unfoldable pub of_bytes : List ℕ → List ℕ
unfolding decode_runes decode_rune
of_bytes bytes = decode_runes (length bytes) bytes
