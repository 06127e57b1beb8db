-- ===== src/State/Parser/ShownTags.antt =====
-- The tags that parseStatusTags returns: sorted, each once, known, and none missed.
use arda_wed_gateway.Base.{
  ℕ, zero, suc, ◌≡◌, ◌≤◌, ◌⊎◌, refl, ap, ◌∙◌, subst, Bool, true, false, ◌||◌, none, some, List, [],
  ◌∷◌, ◌++◌, arith, ◌==◌, length, All, Bool-cases, Option-cases, inl, inr,
}
use arda_wed_gateway.Base.Text.{Text, text_eq, text_eq_refl, text_eq→eq}
use arda_wed_gateway.Base.Text.Order.{sort_texts, IsSorted, sort_texts-IsSorted}
use arda_wed_gateway.State.Parser.Scan.{not_paren, span, closes, tag_at, find_tags}
use arda_wed_gateway.State.Parser.Spans.{span-All}
use arda_wed_gateway.State.Parser.Tags.{holds, canonical, collect, parse_status_tags}
use arda_wed_gateway.State.Parser.SortedTags.{IsOnce, holds-sort, sort-IsOnce}

-- Whether one of these matches has this canonical name.
unfoldable pub named : (Text → Text) → Text → List Text → Bool
named lower t [] = false
named lower t (m ∷ ms) = elim (canonical lower m) [
  | none ↦ named lower t ms
  | some tag ↦ text_eq tag t || named lower t ms
]

holds-same :
    (s t : Text) (ts : List Text) → text_eq s t ≡ true → holds s ts ≡ true → holds t ts ≡ true
holds-same s t ts e h = subst (λ (u : Text). holds u ts ≡ true) (text_eq→eq s t e) h

collect-holds :
    (lower : Text → Text) (t : Text) (ms : List Text)
    → holds t (collect lower ms) ≡ named lower t ms
unfolding collect named holds text_eq
collect-holds lower t [] = refl
collect-holds lower t (m ∷ ms) = elim (Option-cases (canonical lower m)) [
  | inl e ↦ rw e (collect-holds lower t ms)
  | inr (tag, e) ↦
      rw e (ground (arith, collect-holds lower t ms, holds-same tag t (collect lower ms)))
]

collect-IsOnce : (lower : Text → Text) (ms : List Text) → IsOnce (collect lower ms)
unfolding collect
collect-IsOnce lower [] = tt
collect-IsOnce lower (m ∷ ms) = elim (Option-cases (canonical lower m)) [
  | inl e ↦ rw e (collect-IsOnce lower ms)
  | inr (tag, e) ↦ rw e (ground (arith, collect-IsOnce lower ms))
]

-- The characters between two parentheses, if there are any of the second.
span_cut :
    (pre s : Text)
    → ((span not_paren (pre ++ (b'(' ∷ s))).1 ≡ b'(' ∷ s)
      ⊎ (suc (length (span not_paren (pre ++ (b'(' ∷ s))).0) ≤ length pre)
unfolding span
span_cut [] s = inl refl
span_cut (c ∷ pre) s = elim (Bool-cases (not_paren c)) [
  | inl q ↦ elim (span_cut pre s) [ inl e ↦ inl (rw q e) | inr l ↦ inr (rw q (omega arith)) ]
  | inr q ↦ inr (rw q (omega arith))
]

closes-inv : (f r ins : Text) → closes f r ≡ some ins → f ≡ ins
closes-inv f [] ins e = absurd (cc)
closes-inv f (c ∷ r) ins e = ground arith

-- A tag that begins before an opening parenthesis ends before it.
tag_stops :
    (c : ℕ) (pre s ins : Text)
    → tag_at (c ∷ (pre ++ (b'(' ∷ s))) ≡ some ins
    → suc (length ins) ≤ length pre
unfolding tag_at
tag_stops c pre s ins e = elim (Bool-cases (c == b'(')) [
  | inl q ↦
      let inside : closes (span not_paren (pre ++ (b'(' ∷ s))).0
            (span not_paren (pre ++ (b'(' ∷ s))).1
          ≡ some ins =
        (rw q at e) in
      elim (span_cut pre s) [
        | inl r ↦ absurd (let open_next = (rw r at inside) in cc)
        | inr l ↦
            let same : (span not_paren (pre ++ (b'(' ∷ s))).0 ≡ ins =
              closes-inv (span not_paren (pre ++ (b'(' ∷ s))).0
                (span not_paren (pre ++ (b'(' ∷ s))).1 ins inside in
            omega (arith, ap length same)
      ]
  | inr q ↦ absurd (let nothing = (rw q at e) in cc)
]

tags_none : (c : ℕ) (s : Text) → tag_at (c ∷ s) ≡ none → find_tags 0 (c ∷ s) ≡ find_tags 0 s
unfolding find_tags
tags_none c s e = rw (e, find_tags) refl

tags_some :
    (c : ℕ) (s ins : Text)
    → tag_at (c ∷ s) ≡ some ins
    → find_tags 0 (c ∷ s) ≡ ins ∷ find_tags (suc (length ins)) s
unfolding find_tags
tags_some c s ins e = rw (e, find_tags) refl

tags_skip : (k c : ℕ) (s : Text) → find_tags (suc k) (c ∷ s) ≡ find_tags k s
unfolding find_tags
tags_skip k c s = refl

holds_tail : (x y : Text) (ms : List Text) → holds x ms ≡ true → holds x (y ∷ ms) ≡ true
unfolding holds
holds_tail x y ms h = ground arith

tags_behind :
    (skip : ℕ) (pre s x : Text)
    → skip ≤ length pre
    → holds x (find_tags 0 (b'(' ∷ s)) ≡ true
    → holds x (find_tags skip (pre ++ (b'(' ∷ s))) ≡ true
tags_behind zero [] s x l h = h
tags_behind (suc skip) [] s x l h = absurd (omega arith)
tags_behind (suc skip) (c ∷ pre) s x l h =
    ap (holds x) (tags_skip skip c (pre ++ (b'(' ∷ s))) ∙ tags_behind skip pre s x (omega arith) h
tags_behind zero (c ∷ pre) s x l h = elim (Option-cases (tag_at (c ∷ (pre ++ (b'(' ∷ s))))) [
  | inl q ↦ ap (holds x) (tags_none c (pre ++ (b'(' ∷ s)) q) ∙ tags_behind 0 pre s x (omega arith) h
  | inr (ins, q) ↦
      ap (holds x) (tags_some c (pre ++ (b'(' ∷ s)) ins q)
      ∙ holds_tail x ins _ (tags_behind (suc (length ins)) pre s x (tag_stops c pre s ins q) h)
]

tag_here :
    (inside post : Text)
    → All (λ c. not_paren c ≡ true) inside
    → 1 ≤ length inside
    → length inside ≤ 64
    → tag_at (b'(' ∷ (inside ++ (b')' ∷ post))) ≡ some inside
unfolding tag_at
tag_here inside post a l u = rw (span-All not_paren inside b')' post a refl) (ground arith)

holds-named :
    (lower : Text → Text) (x tag : Text) (ms : List Text)
    → canonical lower x ≡ some tag
    → holds x ms ≡ true
    → named lower tag ms ≡ true
unfolding holds named canonical text_eq
holds-named lower x tag [] e h = cc
holds-named lower x tag (m ∷ ms) e h = elim (Bool-cases (text_eq m x)) [
  | inl q ↦
      let here : canonical lower m ≡ some tag = rw (text_eq→eq m x q) e in
      rw here (ground (arith, text_eq_refl tag))
  | inr q ↦ elim (Option-cases (canonical lower m)) [
    | inl n ↦ rw n (holds-named lower x tag ms e (ground arith))
    | inr (t, n) ↦ rw n (ground (arith, holds-named lower x tag ms e))
  ]
]

-- In a text with a known tag in parentheses, of at most 64 characters and whatever stands before and
-- behind it, the tags that the parser returns are sorted, each once, include the canonical name of
-- this tag, and include a name exactly if a match of tagRegex has it as its canonical name.
pub parse_status_tags-IsSorted :
    (lower : Text → Text) (pre inside post tag : Text)
    → All (λ c. not_paren c ≡ true) inside
    → 1 ≤ length inside
    → length inside ≤ 64
    → canonical lower inside ≡ some tag
    → let text = pre ++ (b'(' ∷ (inside ++ (b')' ∷ post))) in
      let tags = parse_status_tags lower text in
      IsSorted tags
      × IsOnce tags
      × (holds tag tags ≡ true)
      × ((t : Text) → holds t tags ≡ named lower t (find_tags 0 text))
unfolding parse_status_tags
parse_status_tags-IsSorted lower pre inside post tag a l u e =
    let text : Text = pre ++ (b'(' ∷ (inside ++ (b')' ∷ post))) in
    let each : (t : Text)
        → holds t (sort_texts (collect lower (find_tags 0 text)))
          ≡ named lower t (find_tags 0 text) =
      λ t.
        holds-sort t (collect lower (find_tags 0 text))
        ∙ collect-holds lower t (find_tags 0 text) in
    let here : holds inside (find_tags 0 (b'(' ∷ (inside ++ (b')' ∷ post)))) ≡ true =
      ap (holds inside)
        (tags_some b'(' (inside ++ (b')' ∷ post)) inside (tag_here inside post a l u))
      ∙ unfold holds in rw (text_eq_refl inside) refl in
    (
      sort_texts-IsSorted (collect lower (find_tags 0 text)),
      sort-IsOnce (collect lower (find_tags 0 text)) (collect-IsOnce lower (find_tags 0 text)),
      each tag
          ∙ holds-named lower inside tag (find_tags 0 text) e
              (tags_behind 0 pre _ inside (omega arith) here),
      each,
    )
