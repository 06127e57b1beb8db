-- ===== src/Gateway/Metrics/Histogram.antt =====
-- The latency histogram, and the drops of each session, against the history of observations.
use arda_wed_gateway.Base.{
  ℕ, ◌≡◌, ◌+◌, ◌%◌, refl, false, List, [], ◌∷◌, map, arith, leb, if◌then◌else◌,
}
use arda_wed_gateway.Base.Map.{lookup}
use arda_wed_gateway.Base.Map.Laws.{lookup-insert, text_eq_other}
use arda_wed_gateway.Base.Text.{Text, codes, text_eq, text_eq→eq}
use arda_wed_gateway.Base.Word.{word64, ℤ, pos, negsuc}
use arda_wed_gateway.Gateway.Metrics.{
  Metrics, new_metrics, observe_queue_send_latency, HistogramBucket, snapshot, counter,
  add_queue_dropped_for_session,
}

-- The metrics after a history of observations, the latest one first.
pub observe_all : List ℤ → Metrics
observe_all [] = new_metrics
observe_all (d ∷ ds) = observe_queue_send_latency d (observe_all ds)

-- How many observations are not negative, and of these at most a bound; and their sum.
pub observed : List ℤ → ℕ
observed [] = 0
observed (pos ns ∷ ds) = 1 + observed ds
observed (negsuc n ∷ ds) = observed ds

pub observed_within : ℕ → List ℤ → ℕ
observed_within bound [] = 0
observed_within bound (pos ns ∷ ds) = (if leb ns bound then 1 else 0) + observed_within bound ds
observed_within bound (negsuc n ∷ ds) = observed_within bound ds

pub observed_sum : List ℤ → ℕ
observed_sum [] = 0
observed_sum (pos ns ∷ ds) = ns + observed_sum ds
observed_sum (negsuc n ∷ ds) = observed_sum ds

-- The counters of the histogram are the tallies of the history, up to wrapping.
abbrev Tallies : Metrics → List ℤ → Type 0
Tallies m ds =
    (m.latency_count ≡ observed ds % word64)
    × (m.latency_sum_ns ≡ observed_sum ds % word64)
    × (m.le_05 ≡ observed_within 50_000_000 ds % word64)
    × (m.le_10 ≡ observed_within 100_000_000 ds % word64)
    × (m.le_25 ≡ observed_within 250_000_000 ds % word64)
    × (m.le_50 ≡ observed_within 500_000_000 ds % word64)
    × (m.le_100 ≡ observed_within 1_000_000_000 ds % word64)
    × (m.le_250 ≡ observed_within 2_500_000_000 ds % word64)
    × (m.le_500 ≡ observed_within 5_000_000_000 ds % word64)

observe-Tallies :
    (m : Metrics) (d : ℤ) (ds : List ℤ)
    → Tallies m ds
    → Tallies (observe_queue_send_latency d m) (d ∷ ds)
unfolding observe_queue_send_latency observed observed_within observed_sum
observe-Tallies m (negsuc n) ds t = t
observe-Tallies m (pos ns) ds t = ground arith

observe_all-Tallies : (ds : List ℤ) → Tallies (observe_all ds) ds
unfolding observe_all observed observed_within observed_sum
observe_all-Tallies [] = omega arith
observe_all-Tallies (d ∷ ds) = observe-Tallies (observe_all ds) d ds (observe_all-Tallies ds)

-- The bucket that a snapshot of the history shows under a bound.
pub bucket_of : List ℤ → Text × ℕ → HistogramBucket
bucket_of ds (le, bound) = record { le = le; count = observed_within bound ds % word64 }

abbrev pub bucket_bounds : List (Text × ℕ)
bucket_bounds =
    (codes "0.05", 50_000_000)
    ∷ (codes "0.1", 100_000_000)
    ∷ (codes "0.25", 250_000_000)
    ∷ (codes "0.5", 500_000_000)
    ∷ (codes "1", 1_000_000_000)
    ∷ (codes "2.5", 2_500_000_000)
    ∷ (codes "5", 5_000_000_000)
    ∷ []

-- After any history of observed latencies the snapshot's histogram is cumulative: each of the seven
-- buckets counts the non-negative latencies up to its bound, the count and the sum take in all
-- non-negative ones, and negative ones leave no trace; all modulo 2^64.
pub snapshot-observe_all :
    (ds : List ℤ)
    → (snapshot (observe_all ds)).queue_send_latency ≡ record {
      buckets = map (bucket_of ds) bucket_bounds;
      sum_ns = observed_sum ds % word64;
      count = observed ds % word64;
    }
unfolding snapshot bucket_of
snapshot-observe_all ds = let t = observe_all-Tallies ds in ground arith

-- The drops of a session after a list of reports, each a session and a count, the latest one first.
pub report_drops : List (Text × ℕ) → Metrics → Metrics
report_drops [] m = m
report_drops ((s, n) ∷ rs) m = add_queue_dropped_for_session s n (report_drops rs m)

pub drops_of : Text → List (Text × ℕ) → ℕ
drops_of s [] = 0
drops_of s ((r, n) ∷ rs) = (if text_eq r s then n else 0) + drops_of s rs

named : (c : ℕ) (cs : Text) → text_eq (c ∷ cs) [] ≡ false
unfolding text_eq
named c cs = refl

report_drop_step :
    (c : ℕ) (cs r : Text) (n x : ℕ) (m : Metrics)
    → counter (lookup (c ∷ cs) m.dropped_by_session) ≡ x % word64
    → counter (lookup (c ∷ cs) (add_queue_dropped_for_session r n m).dropped_by_session)
      ≡ ((if text_eq r (c ∷ cs) then n else 0) + x) % word64
unfolding add_queue_dropped_for_session
report_drop_step c cs r n x m h = ground (
  arith,
  lookup-insert r (c ∷ cs) ((counter (lookup r m.dropped_by_session) + n) % word64)
      m.dropped_by_session,
  text_eq_other r [] (c ∷ cs),
  text_eq→eq r (c ∷ cs),
  named c cs,
)

-- The counter of every session with a name is the sum of the drops reported for it, modulo 2^64:
-- reports for other sessions, with no name, or of no drops do not count.
report_drops-lookup :
    (rs : List (Text × ℕ)) (c : ℕ) (cs : Text)
    → counter (lookup (c ∷ cs) (snapshot (report_drops rs new_metrics)).dropped_by_session)
      ≡ drops_of (c ∷ cs) rs % word64
unfolding report_drops drops_of snapshot
report_drops-lookup [] c cs = unfold lookup in refl
report_drops-lookup ((r, n) ∷ rs) c cs =
    report_drop_step c cs r n (drops_of (c ∷ cs) rs) (report_drops rs new_metrics)
      (report_drops-lookup rs c cs)
