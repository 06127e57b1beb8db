-- ===== src/Tests/Counters.antt =====
-- metrics.go at concrete histories.
use arda_wed_gateway.Base.{◌≡◌, ◌%◌, List, [], ◌∷◌, map}
use arda_wed_gateway.Base.Word.{ℤ, pos, negsuc, word64}
use arda_wed_gateway.Gateway.Metrics.{snapshot}
use arda_wed_gateway.Gateway.Metrics.Histogram.{
  observe_all, observed, observed_sum, bucket_of, bucket_bounds, snapshot-observe_all,
}

-- 70 ms, a negative time, and one second.
abbrev latencies : List ℤ
latencies = pos 70_000_000 ∷ negsuc 4 ∷ pos 1_000_000_000 ∷ []

snapshot-observe_all_example : (snapshot (observe_all latencies)).queue_send_latency ≡ record {
  buckets = map (bucket_of latencies) bucket_bounds;
  sum_ns = observed_sum latencies % word64;
  count = observed latencies % word64;
}
snapshot-observe_all_example = snapshot-observe_all latencies
