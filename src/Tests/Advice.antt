-- ===== src/Tests/Advice.antt =====
-- The service of suggestions at concrete inputs.
use arda_wed_gateway.Base.{◌≡◌, refl, false, [], ◌∷◌, arith}
use arda_wed_gateway.Base.Map.{lookup, insert}
use arda_wed_gateway.Base.Text.Space.{trim_space}
use arda_wed_gateway.Base.Text.{codes, text_eq}
use arda_wed_gateway.Suggestions.{
  Suggestion, Service, new_service, job_seq_of, ingest_terminal, mark_in_flight, suggests, complete,
}
use arda_wed_gateway.Suggestions.Jobs.{complete-stale}

abbrev asked : Service
asked = ingest_terminal (codes "s-1") (codes "hi") (new_service 2)

abbrev running : Service
running = mark_in_flight (codes "s-1") 1 asked

abbrev advice : Suggestion
advice = record {
  commands = codes "look" ∷ [];
  reason = codes "dark";
  expected_outcome = codes "light";
  generated_at = [];
}

news_is_text : text_eq (trim_space (codes "news")) [] ≡ false
unfolding trim_space text_eq
news_is_text = refl

first_job : job_seq_of (codes "s-1") running ≡ 1
unfolding job_seq_of ingest_terminal new_service mark_in_flight lookup text_eq trim_space insert
first_job = refl

complete-stale_example :
    (complete
      (codes "s-1")
      1
      (suggests advice)
      9
      (codes "t")
      (ingest_terminal (codes "s-1") (codes "news") running)).latest
    ≡ running.latest
complete-stale_example =
    complete-stale (codes "s-1") (codes "news") 1 (suggests advice) 9 (codes "t") running
      news_is_text (omega (arith, first_job)) (omega (arith, first_job))
