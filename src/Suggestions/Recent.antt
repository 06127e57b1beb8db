-- ===== src/Suggestions/Recent.antt =====
-- The lines that are kept of a session, against all that arrived.
use arda_wed_gateway.Base.{
  ℕ, zero, suc, ◌+◌, ◌-◌, ◌≤◌, ◌<◌, ◌≡◌, not, ◌&&◌, refl, sym, ap, ◌∙◌, List, [], ◌∷◌, ◌++◌, length,
  drop, arith, length-append, drop-nil, if◌then◌else◌,
}
use arda_wed_gateway.Base.Map.{lookup}
use arda_wed_gateway.Base.Map.Laws.{lookup-insert}
use arda_wed_gateway.Base.Text.Space.{trim_space}
use arda_wed_gateway.Base.Text.{Text, text_eq, text_eq→eq}
use arda_wed_gateway.Suggestions.Lines.{
  split_lines, unix_text, append_parts, append_log_lines, kept_parts, append_parts-kept,
}
use arda_wed_gateway.Suggestions.{
  Service, new_service, lines_or_nil, trim_recent, recent_of, ingest_terminal,
}

length-drop : {A : Type 0} (n : ℕ) (xs : List A) → length (drop n xs) ≡ length xs - n
length-drop zero xs = omega arith
length-drop (suc n) [] = omega arith
length-drop (suc n) (x ∷ xs) = omega (arith, length-drop n xs)

drop-append :
    {A : Type 0} (n : ℕ) (xs ys : List A) → n ≤ length xs → drop n xs ++ ys ≡ drop n (xs ++ ys)
drop-append zero xs ys h = refl
drop-append (suc n) [] ys h = absurd (omega arith)
drop-append (suc n) (x ∷ xs) ys h = drop-append n xs ys (omega arith)

drop-drop : {A : Type 0} (m n k : ℕ) (xs : List A) → k ≡ n + m → drop m (drop n xs) ≡ drop k xs
drop-drop m zero k xs e = ap (λ i. drop i xs) (omega arith)
drop-drop m (suc n) k [] e = drop-nil m ∙ sym (drop-nil k)
drop-drop m (suc n) zero (x ∷ xs) e = absurd (omega arith)
drop-drop m (suc n) (suc k) (x ∷ xs) e = drop-drop m n k xs (omega arith)

pub last_lines : ℕ → List Text → List Text
last_lines max l = drop (length l - max) l

-- Trimming as one goes keeps what trimming at the end does.
last_lines-append :
    (max : ℕ) (xs ys : List Text)
    → last_lines max (last_lines max xs ++ ys) ≡ last_lines max (xs ++ ys)
unfolding last_lines
last_lines-append max xs ys =
    let k : ℕ = length xs - max in
    let joined : drop k xs ++ ys ≡ drop k (xs ++ ys) = drop-append k xs ys (omega arith) in
    ap (λ l. drop (length l - max) l) joined
    ∙ drop-drop (length (drop k (xs ++ ys)) - max) k (length (xs ++ ys) - max) (xs ++ ys)
        (omega (arith, length-drop k (xs ++ ys), length-append xs ys))

drop-none : (n : ℕ) (l : List Text) → n ≡ 0 → drop n l ≡ l
drop-none n l e = ap (λ i. drop i l) e

trim-last : (max : ℕ) (l : List Text) → 0 < max → trim_recent l max ≡ last_lines max l
unfolding trim_recent last_lines
trim-last max l h = ground (arith, drop-none (length l - max) l)

-- The service after a history of texts, each with its session, the latest one first.
pub ingest_all : ℕ → List (Text × Text) → Service
ingest_all max [] = new_service max
ingest_all max ((i, text) ∷ l) = ingest_terminal i text (ingest_all max l)

-- All lines of a session that arrived, oldest first.
unfoldable pub all_lines : Text → List (Text × Text) → List Text
all_lines id [] = []
all_lines id ((i, text) ∷ l) =
    let before = all_lines id l in
    if text_eq i id && not (text_eq (trim_space text) [])
    then before ++ kept_parts (split_lines (unix_text text))
    else before

pub ingest-max :
    (i text : Text) (s : Service) → (ingest_terminal i text s).recent_lines_max ≡ s.recent_lines_max
unfolding ingest_terminal
ingest-max i text s = ground arith

ingest_all-max :
    (max : ℕ) (l : List (Text × Text)) → 0 < max → (ingest_all max l).recent_lines_max ≡ max
unfolding ingest_all new_service
ingest_all-max max [] h = ground arith
ingest_all-max max ((i, text) ∷ l) h = ingest-max i text (ingest_all max l) ∙ ingest_all-max max l h

-- The lines that a text leaves of its session.
ingest_lines :
    (max : ℕ) (i text : Text) (before old : List Text)
    → 0 < max
    → old ≡ last_lines max before
    → trim_recent (append_log_lines old text) max
      ≡ last_lines max (before ++ kept_parts (split_lines (unix_text text)))
unfolding append_log_lines
ingest_lines max i text before old h e =
    let parts = split_lines (unix_text text) in
    trim-last max (append_parts old parts) h
    ∙ ap (last_lines max) (append_parts-kept old parts)
    ∙ ap (λ l. last_lines max (l ++ kept_parts parts)) e
    ∙ last_lines-append max before (kept_parts parts)

pub ingest_step :
    (max : ℕ) (id i text : Text) (before : List Text) (s : Service)
    → 0 < max
    → s.recent_lines_max ≡ max
    → recent_of id s ≡ last_lines max before
    → recent_of id (ingest_terminal i text s)
      ≡ last_lines max (
          if text_eq i id && not (text_eq (trim_space text) [])
          then before ++ kept_parts (split_lines (unix_text text))
          else before)
unfolding ingest_terminal recent_of
ingest_step max id i text before s h hm e = ground (
  arith,
  lookup-insert i id
      (trim_recent (append_log_lines (lines_or_nil (lookup i s.recent_by_session)) text)
        s.recent_lines_max)
      s.recent_by_session,
  text_eq→eq i id,
  ingest_lines max i text before (lines_or_nil (lookup id s.recent_by_session)) h e,
)

pub new-last_lines :
    (n max : ℕ) (id : Text) → recent_of id (new_service n) ≡ last_lines max (all_lines id [])
unfolding all_lines recent_of new_service lookup last_lines
new-last_lines n max id = sym (drop-nil (0 - max))

-- After any history of texts the service holds, for each session, the last lines of all that arrived
-- for it, as many as the maximum, which is positive: blank lines and the texts of other sessions leave no trace, and
-- trimming after each text loses nothing that belongs to them.
recent-last_lines :
    (max : ℕ) (id : Text) (l : List (Text × Text))
    → 0 < max
    → recent_of id (ingest_all max l) ≡ last_lines max (all_lines id l)
unfolding ingest_all all_lines
recent-last_lines max id [] h = new-last_lines max max id
recent-last_lines max id ((i, text) ∷ l) h =
    ingest_step max id i text (all_lines id l) (ingest_all max l) h (ingest_all-max max l h)
      (recent-last_lines max id l h)
