-- ===== src/Tests/Parsing.antt =====
-- parser.go and store.go at concrete texts and tables.
use arda_wed_gateway.Base.{
  zero, suc, ◌==◌, ◌≡◌, refl, ap, ◌∙◌, Bool, true, false, ◌&&◌, Option, none, some, List, [], ◌∷◌,
  ◌++◌, arith, if◌then◌else◌,
}
use arda_wed_gateway.Base.Map.{Map, lookup, insert}
use arda_wed_gateway.Base.Map.Laws.{lookup-insert}
use arda_wed_gateway.Base.Text.{Text, codes, text_eq, contains_rune}
use arda_wed_gateway.Base.Text.Search.{extend_first}
use arda_wed_gateway.Base.Text.Order.{IsSorted}
use arda_wed_gateway.Base.Text.Space.{trim_space, trim_left, trim_right}
use arda_wed_gateway.Base.Word.{pos}
use arda_wed_gateway.State.{Delta}
use arda_wed_gateway.State.Sqlite.{
  Row, Tables, IsLawful, TagsJson, IsCodec, Faults, upsert_delta, get_by_session,
}
use arda_wed_gateway.State.Sqlite.History.{no_faults, Entry, of_session, upsert_all}
use arda_wed_gateway.State.Sqlite.Stored.{IsFresh, IsRead, get_by_session-IsRead}
use arda_wed_gateway.State.Sqlite.Rollback.{IsSafe, upsert_delta-IsSafe}
use arda_wed_gateway.State.Parser.Scan.{find_tags}
use arda_wed_gateway.State.Parser.Prompt.{parse_prompt}
use arda_wed_gateway.State.Parser.LastPrompt.{parse_prompt-last}
use arda_wed_gateway.State.Parser.PromptLine.{prompt_line}
use arda_wed_gateway.State.Parser.Tags.{canonical, holds, parse_status_tags}
use arda_wed_gateway.State.Parser.SortedTags.{IsOnce}
use arda_wed_gateway.State.Parser.ShownTags.{named, parse_status_tags-IsSorted}

-- Behind an earlier prompt, and a prompt that is cut off.
abbrev earlier : Text
earlier = codes "(1/2 3/4 5/6 7 |) (10/"

parse_prompt-last_example :
    parse_prompt (earlier ++ prompt_line 90 100 40 50 70 80 1234 (codes " >"))
    ≡ some (record {
      hp_current = pos 90;
      hp_max = pos 100;
      ma_current = pos 40;
      ma_max = pos 50;
      mv_current = pos 70;
      mv_max = pos 80;
      exp = pos 1234;
    })
parse_prompt-last_example =
    parse_prompt-last earlier (codes " >") 90 100 40 50 70 80 1234 nothing_open (omega arith)
      (omega arith) (omega arith) (omega arith) (omega arith) (omega arith) (omega arith)
  where
    nothing_open : contains_rune (codes " >") b'(' ≡ false
    nothing_open = unfold contains_rune in refl

abbrev in_lower_case : Text → Text
in_lower_case s = s

swims : canonical in_lower_case (codes "плавает") ≡ some (codes "Плавает")
unfolding canonical lookup trim_space trim_left trim_right text_eq
swims = refl

parse_status_tags-IsSorted_example :
    let text = codes "(?) (" ++ (b'(' ∷ (codes "плавает" ++ (b')' ∷ codes " (светится)"))) in
    let tags = parse_status_tags in_lower_case text in
    IsSorted tags
    × IsOnce tags
    × (holds (codes "Плавает") tags ≡ true)
    × ((t : Text) → holds t tags ≡ named in_lower_case t (find_tags 0 text))
parse_status_tags-IsSorted_example =
    parse_status_tags-IsSorted in_lower_case (codes "(?) (") (codes "плавает") (codes " (светится)")
      (codes "Плавает") (refl, (refl, (refl, (refl, (refl, (refl, (refl, tt))))))) (omega arith)
      (omega arith) swims

-- Tables as functions, and tags in a text that ends each of them by a 0.
abbrev Db : Type 0
Db = (Text → Option Row) × (Text → Map Text)

abbrev db_tables : Tables Db
db_tables = record {
  row = λ id d. d.0 id;
  items = λ id d. d.1 id;
  latest = λ d. none;
  put_row = λ r d. (λ id. if text_eq r.session_id id then some r else d.0 id, d.1);
  put_item = λ s slot item stamp d.
      (d.0, λ id. if text_eq s id then insert slot item (d.1 id) else d.1 id);
}

item_put :
    (b : Bool) (slot item k : Text) (m : Map Text)
    → lookup k (if b then insert slot item m else m)
      ≡ (if b && text_eq slot k then some item else lookup k m)
item_put true slot item k m = lookup-insert slot k item m
item_put false slot item k m = refl

db_tables-IsLawful : IsLawful db_tables
db_tables-IsLawful = record {
  row-put_row = λ r id d. refl;
  items-put_row = λ r id d. refl;
  row-put_item = λ s slot item stamp id d. refl;
  items-put_item = λ s slot item stamp id k d. item_put (text_eq s id) slot item k (d.1 id);
}

-- A code that is one more for each character, and 0 behind a tag; 1 in front of all.
encode_tag : Text → Text → Text
encode_tag [] rest = 0 ∷ rest
encode_tag (c ∷ cs) rest = suc c ∷ encode_tag cs rest

encode_tags : List Text → Text
encode_tags [] = []
encode_tags (t ∷ ts) = encode_tag t (encode_tags ts)

decode_tags : Text → List Text
decode_tags [] = []
decode_tags (zero ∷ s) = [] ∷ decode_tags s
decode_tags (suc c ∷ s) = extend_first c (decode_tags s)

decode_tag : (t rest : Text) → decode_tags (encode_tag t rest) ≡ t ∷ decode_tags rest
unfolding decode_tags encode_tag
decode_tag [] rest = refl
decode_tag (c ∷ cs) rest = ap (extend_first c) (decode_tag cs rest)

decode_all : (ts : List Text) → decode_tags (encode_tags ts) ≡ ts
unfolding decode_tags encode_tags
decode_all [] = refl
decode_all (t ∷ ts) =
    decode_tag t (encode_tags ts) ∙ ap (λ (us : List Text). t ∷ us) (decode_all ts)

abbrev behind_mark : Text → Option (List Text)
behind_mark [] = none
behind_mark (c ∷ s) = some (decode_tags s)

abbrev tag_codec : TagsJson
tag_codec = record { marshal = λ ts. 1 ∷ encode_tags ts; unmarshal = behind_mark }

tag_codec-IsCodec : IsCodec tag_codec
tag_codec-IsCodec = record {
  back = λ ts. ap (λ (us : List Text). some us) (decode_all ts);
  full = λ ts. unfold text_eq in refl;
}

abbrev empty_db : Db
empty_db = (λ id. none, λ id. [])

empty_db-IsFresh : IsFresh db_tables tag_codec (codes "s-1") empty_db
empty_db-IsFresh = record { no_row = refl; no_items = λ k. unfold lookup in refl }

abbrev entry : Text → Text → Entry
entry id location = record {
  session_id = id;
  stamp = codes "t";
  delta = record {
    location = location;
    prompt = none;
    status_tags = codes "a" ∷ [];
    equipment = (codes "held", codes "lamp") ∷ [];
  };
}

abbrev entries : List Entry
entries =
    entry (codes "s-1") []
    ∷ entry (codes "s-2") (codes "cave")
    ∷ entry (codes "s-1") (codes "square")
    ∷ []

named_session : text_eq (codes "s-1") [] ≡ false
named_session = unfold text_eq in refl

get_by_session-IsRead_example :
    IsRead db_tables tag_codec (codes "s-1") (of_session (codes "s-1") entries) (
      get_by_session db_tables tag_codec no_faults
        (codes "s-1")
        (upsert_all db_tables tag_codec empty_db entries))
get_by_session-IsRead_example =
    get_by_session-IsRead db_tables tag_codec db_tables-IsLawful tag_codec-IsCodec (codes "s-1")
      entries empty_db named_session empty_db-IsFresh

-- The second item of a transaction is not written.
abbrev second_item_fails : Faults
second_item_fails = record no_faults { item_fails = λ n. n == 1 }

abbrev two_items : Delta
two_items = record {
  location = codes "square";
  prompt = none;
  status_tags = [];
  equipment = (codes "held", codes "lamp") ∷ (codes "head", codes "hat") ∷ [];
}

upsert_delta-IsSafe_example :
    IsSafe db_tables tag_codec
      (codes "s-1")
      empty_db
      (upsert_delta db_tables tag_codec no_faults (codes "s-1") (codes "t") two_items empty_db).0
      (upsert_delta db_tables tag_codec second_item_fails
        (codes "s-1")
        (codes "t")
        two_items
        empty_db)
upsert_delta-IsSafe_example =
    upsert_delta-IsSafe db_tables tag_codec db_tables-IsLawful second_item_fails (codes "s-1")
      (codes "t") two_items empty_db
