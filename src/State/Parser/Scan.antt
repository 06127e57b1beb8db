-- ===== src/State/Parser/Scan.antt =====
-- The regular expressions of parser.go, as matchers. In each of them no character can belong to two
-- neighbouring parts, so that taking as much as fits is the only way to match.
use arda_wed_gateway.Base.{
  ℕ, zero, suc, ◌+◌, ◌-◌, Bool, true, false, not, ◌&&◌, ◌||◌, Option, none, some, List, [], ◌∷◌,
  ◌==◌, leb, length, if◌then◌else◌,
}
use arda_wed_gateway.Base.Text.{Text}

-- [0-9], [A-Za-z], and the class \s of the package regexp.
abbrev pub is_digit : ℕ → Bool
is_digit c = leb 48 c && leb c 57

abbrev pub is_letter : ℕ → Bool
is_letter c = leb 65 c && leb c 90 || leb 97 c && leb c 122

abbrev pub is_blank_char : ℕ → Bool
is_blank_char c = c == 9 || c == 10 || c == 12 || c == 13 || c == 32

-- The longest front of characters of a class, and what is behind it.
unfoldable pub span : (ℕ → Bool) → Text → Text × Text
span p [] = ([], [])
span p (c ∷ cs) = let (front, rest) = span p cs in if p c then (c ∷ front, rest) else ([], c ∷ cs)

-- [0-9;]*[A-Za-z] at the front: its length.
unfoldable pub ansi_tail : Text → Option ℕ
ansi_tail [] = none
ansi_tail (c ∷ cs) =
    let later : Option ℕ = elim (ansi_tail cs) [ none ↦ none | some n ↦ some (suc n) ] in
    if is_letter c then some 1 else (if is_digit c || c == b';' then later else none)

-- The length of a match of ansiRegex at the front, 0 for none.
unfoldable pub ansi_at : Text → ℕ
unfolding ansi_tail
ansi_at [] = 0
ansi_at (e ∷ []) = 0
ansi_at (e ∷ b ∷ cs) =
    let n : ℕ = elim (ansi_tail cs) [ none ↦ 0 | some n ↦ n + 2 ] in
    if e == 27 && b == b'[' then n else 0

-- ansiRegex.ReplaceAllString(text, ""); `skip` counts the characters of a match still to pass.
unfoldable pub strip_ansi : ℕ → Text → Text
unfolding ansi_at
strip_ansi skip [] = []
strip_ansi (suc skip) (c ∷ cs) = strip_ansi skip cs
strip_ansi zero (c ∷ cs) = elim (ansi_at (c ∷ cs)) [
  | zero ↦ c ∷ strip_ansi 0 cs
  | suc n ↦ strip_ansi n cs
]

-- The parts of promptRegex: a character, \s*, \s+ and (\d+).
pub data Part : Type 0 where
  char : ℕ → Part
  blanks some_blanks : Part
  digits : Part

-- A match at the front: its groups, and the text behind it.
abbrev pub Found : Type 0
Found = Option (List Text × Text)

abbrev pub with_group : Text → Found → Found
with_group g none = none
with_group g (some (gs, rest)) = some (g ∷ gs, rest)

abbrev pub is_empty : Text → Bool
is_empty [] = true
is_empty (c ∷ cs) = false

unfoldable pub match_at : List Part → Text → Found
unfolding span
match_at [] s = some ([], s)
match_at (char c ∷ ps) [] = none
match_at (char c ∷ ps) (d ∷ s) = let rest = match_at ps s in if d == c then rest else none
match_at (blanks ∷ ps) s = match_at ps (span is_blank_char s).1
match_at (some_blanks ∷ ps) s =
    let rest = match_at ps (span is_blank_char s).1 in
    if is_empty (span is_blank_char s).0 then none else rest
match_at (digits ∷ ps) s =
    let rest = with_group (span is_digit s).0 (match_at ps (span is_digit s).1) in
    if is_empty (span is_digit s).0 then none else rest

-- FindAllStringSubmatch(text, -1): the groups of every match, from left to right.
unfoldable pub find_all : List Part → ℕ → Text → List (List Text)
unfolding match_at
find_all ps skip [] = []
find_all ps (suc skip) (c ∷ cs) = find_all ps skip cs
find_all ps zero (c ∷ cs) = elim (match_at ps (c ∷ cs)) [
  | none ↦ find_all ps 0 cs
  | some (groups, rest) ↦ groups ∷ find_all ps (length cs - length rest) cs
]

-- \s*/\s*
abbrev slash : List Part → List Part
slash ps = blanks ∷ char b'/' ∷ blanks ∷ ps

-- promptRegex behind its first character, and the whole of it.
abbrev pub prompt_tail : List Part
prompt_tail =
    blanks
    ∷ digits
    ∷ slash (
        digits
        ∷ some_blanks
        ∷ digits
        ∷ slash (
            digits
            ∷ some_blanks
            ∷ digits
            ∷ slash (
                digits ∷ some_blanks ∷ digits ∷ some_blanks ∷ char b'|' ∷ blanks ∷ char b')' ∷ [])))

abbrev pub prompt_regex : List Part
prompt_regex = char b'(' ∷ prompt_tail

abbrev pub not_paren : ℕ → Bool
not_paren c = not (c == b'(' || c == b')')

abbrev pub closes : Text → Text → Option Text
closes inside [] = none
closes inside (c ∷ rest) =
    if c == b')' && leb 1 (length inside) && leb (length inside) 64 then some inside else none

-- tagRegex at the front: its group.
unfoldable pub tag_at : Text → Option Text
unfolding span
tag_at [] = none
tag_at (c ∷ cs) = if c == b'(' then closes (span not_paren cs).0 (span not_paren cs).1 else none

-- tagRegex.FindAllStringSubmatch(text, -1): the group of every match.
unfoldable pub find_tags : ℕ → Text → List Text
unfolding tag_at
find_tags skip [] = []
find_tags (suc skip) (c ∷ cs) = find_tags skip cs
find_tags zero (c ∷ cs) = elim (tag_at (c ∷ cs)) [
  | none ↦ find_tags 0 cs
  | some inside ↦ inside ∷ find_tags (suc (length inside)) cs
]
