-- ===== src/Http/Page.antt =====
-- session.go: the text of the metrics page. `quote` is the verb %q, `seconds` the sum of the latencies
-- as %f shows it.
use arda_wed_gateway.Base.{ℕ, ◌-◌, ◌≡◌, Option, none, some, List, [], ◌∷◌, ◌++◌, ltb, if◌then◌else◌}
use arda_wed_gateway.Base.Map.{Map, lookup}
use arda_wed_gateway.Base.Map.Sorted.{keys, sorted_lines, sorted_lines-perm}
use arda_wed_gateway.Base.Text.{Text, codes, decimal}
use arda_wed_gateway.Base.Word.{pos, negsuc, minus_one}
use arda_wed_gateway.Gateway.Metrics.{
  HistogramBucket, HistogramSnapshot, Metrics, MetricsSnapshot, snapshot,
}
use mathlib.Core.List.{Perm}

-- The int64 of a bit pattern, in digits.
abbrev pub shown : ℕ → Text
shown w = decimal (if ltb w 0x8000000000000000 then pos w else negsuc (minus_one - w))

-- A missing key reads as 0.
abbrev pub count_of : Option ℕ → ℕ
count_of none = 0
count_of (some n) = n

unfoldable pub bucket_line : (Text → Text) → Text → ℕ → Text
bucket_line quote le count =
    codes "gateway_queue_send_latency_seconds_bucket{le="
    ++ (quote le ++ (codes "} " ++ (shown count ++ (10 ∷ []))))

unfoldable pub bucket_lines : (Text → Text) → List HistogramBucket → Text
unfolding bucket_line
bucket_lines quote [] = []
bucket_lines quote (b ∷ bs) = bucket_line quote b.le b.count ++ bucket_lines quote bs

unfoldable pub format_latency_buckets : (Text → Text) → HistogramSnapshot → Text
unfolding bucket_lines
format_latency_buckets quote h =
    bucket_lines quote h.buckets ++ bucket_line quote (codes "+Inf") h.count

unfoldable pub dropped_line : (Text → Text) → Text → Option ℕ → Text
dropped_line quote id count =
    codes "gateway_queue_dropped_unsent_total{session_id="
    ++ (quote id ++ (codes "} " ++ (shown (count_of count) ++ (10 ∷ []))))

unfoldable pub format_dropped_by_session : (Text → Text) → Map ℕ → Text
unfolding dropped_line sorted_lines
format_dropped_by_session quote per_session = sorted_lines (dropped_line quote) per_session

abbrev concat : List Text → Text
concat [] = []
concat (l ∷ ls) = l ++ concat ls

abbrev metric : Text → Text → ℕ → Text
metric name kind value =
    codes "# TYPE "
    ++ (name ++ (codes " " ++ (kind ++ (10 ∷ (name ++ (codes " " ++ (shown value ++ (10 ∷ []))))))))

-- The body of the page.
unfoldable pub metrics_page : (Text → Text) → (ℕ → Text) → MetricsSnapshot → Text
unfolding format_latency_buckets format_dropped_by_session
metrics_page quote seconds s = concat (
    metric (codes "gateway_ws_connections") (codes "gauge") s.ws_connections
    ∷ metric (codes "gateway_queue_depth") (codes "gauge") s.queue_depth
    ∷ metric (codes "gateway_queue_sent_total") (codes "counter") s.queue_sent_total
    ∷ metric (codes "gateway_queue_send_failed_total") (codes "counter") s.queue_send_failed_total
    ∷ metric (codes "gateway_queue_rejected_total") (codes "counter") s.queue_rejected_total
    ∷ metric (codes "gateway_queue_dropped_total") (codes "counter") s.queue_dropped_total
    ∷ metric (codes "gateway_events_broadcast_total") (codes "counter") s.events_broadcast_total
    ∷ (codes "# TYPE gateway_queue_send_latency_seconds histogram" ++ (10 ∷ []))
    ∷ format_latency_buckets quote s.queue_send_latency
    ∷ (codes "gateway_queue_send_latency_seconds_sum "
        ++ (seconds s.queue_send_latency.sum_ns ++ (10 ∷ [])))
    ∷ (codes "gateway_queue_send_latency_seconds_count "
        ++ (shown s.queue_send_latency.count ++ (10 ∷ [])))
    ∷ (codes "# TYPE gateway_queue_dropped_unsent_total counter" ++ (10 ∷ []))
    ∷ format_dropped_by_session quote s.dropped_by_session
    ∷ [])

-- handleMetrics: the status and the body.
unfoldable pub handle_metrics : (Text → Text) → (ℕ → Text) → Metrics → ℕ × Text
unfolding metrics_page snapshot
handle_metrics quote seconds m = (200, metrics_page quote seconds (snapshot m))

-- The lines of the page on dropped commands are a function of the map alone: two maps with the same
-- keys in any two orders and the same number under each key give the same text.
pub format_dropped-perm :
    (quote : Text → Text) (p q : Map ℕ)
    → Perm (keys p) (keys q)
    → ((id : Text) → lookup id p ≡ lookup id q)
    → format_dropped_by_session quote p ≡ format_dropped_by_session quote q
unfolding format_dropped_by_session
format_dropped-perm quote p q same e = sorted_lines-perm (dropped_line quote) p q same e
