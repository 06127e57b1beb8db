-- ===== src/Gateway/Metrics.antt =====
-- backend/internal/gateway/metrics.go: the counters, the latency histogram and its snapshot.
-- An atomic.Int64 is its bit pattern, so that it wraps round.
pub mod Histogram
use arda_wed_gateway.Base.{
  ℕ, ◌*◌, Bool, ◌||◌, Option, none, some, List, [], ◌∷◌, ◌==◌, leb, if◌then◌else◌,
}
use arda_wed_gateway.Base.Map.{Map, lookup, insert}
use arda_wed_gateway.Base.Text.{Text, codes, text_eq}
use arda_wed_gateway.Base.Word.{add64, minus_one, ℤ, pos, negsuc}

-- queueSendLatencyBuckets, in nanoseconds. Comparing an elapsed time in seconds, a float64, with a
-- bound gives what comparing nanoseconds does: rounding is monotone and the bounds are exact.
abbrev pub bound_05 : ℕ
bound_05 = 50 * 1_000_000

abbrev pub bound_10 : ℕ
bound_10 = 100 * 1_000_000

abbrev pub bound_25 : ℕ
bound_25 = 250 * 1_000_000

abbrev pub bound_50 : ℕ
bound_50 = 500 * 1_000_000

abbrev pub bound_100 : ℕ
bound_100 = 1_000 * 1_000_000

abbrev pub bound_250 : ℕ
bound_250 = 2_500 * 1_000_000

abbrev pub bound_500 : ℕ
bound_500 = 5_000 * 1_000_000

pub record Metrics : Type 0 where
  pub ws_connections : ℕ
  pub queue_depth : ℕ
  pub queue_sent_total : ℕ
  pub queue_send_failed_total : ℕ
  pub queue_rejected_total : ℕ
  pub queue_dropped_total : ℕ
  pub events_broadcast_total : ℕ
  pub latency_count : ℕ
  pub latency_sum_ns : ℕ
  pub le_05 : ℕ
  pub le_10 : ℕ
  pub le_25 : ℕ
  pub le_50 : ℕ
  pub le_100 : ℕ
  pub le_250 : ℕ
  pub le_500 : ℕ
  pub dropped_by_session : Map ℕ

abbrev pub new_metrics : Metrics
new_metrics = record {
  ws_connections = 0;
  queue_depth = 0;
  queue_sent_total = 0;
  queue_send_failed_total = 0;
  queue_rejected_total = 0;
  queue_dropped_total = 0;
  events_broadcast_total = 0;
  latency_count = 0;
  latency_sum_ns = 0;
  le_05 = 0;
  le_10 = 0;
  le_25 = 0;
  le_50 = 0;
  le_100 = 0;
  le_250 = 0;
  le_500 = 0;
  dropped_by_session = [];
}

unfoldable pub inc_ws_connections : Metrics → Metrics
inc_ws_connections m = record m { ws_connections = add64 m.ws_connections 1 }

unfoldable pub dec_ws_connections : Metrics → Metrics
dec_ws_connections m = record m { ws_connections = add64 m.ws_connections minus_one }

unfoldable pub set_queue_depth : ℕ → Metrics → Metrics
set_queue_depth depth m = record m { queue_depth = depth }

unfoldable pub inc_queue_sent : Metrics → Metrics
inc_queue_sent m = record m { queue_sent_total = add64 m.queue_sent_total 1 }

unfoldable pub inc_queue_send_failed : Metrics → Metrics
inc_queue_send_failed m = record m { queue_send_failed_total = add64 m.queue_send_failed_total 1 }

unfoldable pub inc_queue_rejected : Metrics → Metrics
inc_queue_rejected m = record m { queue_rejected_total = add64 m.queue_rejected_total 1 }

unfoldable pub add_queue_dropped : ℕ → Metrics → Metrics
add_queue_dropped count m = record m { queue_dropped_total = add64 m.queue_dropped_total count }

unfoldable pub inc_events_broadcast : Metrics → Metrics
inc_events_broadcast m = record m { events_broadcast_total = add64 m.events_broadcast_total 1 }

-- LoadOrStore of a new counter, then its value.
abbrev pub counter : Option ℕ → ℕ
counter none = 0
counter (some n) = n

-- A count is never negative, so `count <= 0` is the test for 0.
unfoldable pub add_queue_dropped_for_session : Text → ℕ → Metrics → Metrics
add_queue_dropped_for_session session_id count m =
    if text_eq session_id [] || count == 0 then m else record m {
      dropped_by_session =
          insert session_id (add64 (counter (lookup session_id m.dropped_by_session)) count)
            m.dropped_by_session;
    }

-- The cases of the switch, from the first bound on; a case adds to its own bucket and all behind.
observe_buckets : ℕ → Metrics → Metrics
observe_buckets ns m =
    if leb ns bound_05
    then record m {
      le_05 = add64 m.le_05 1;
      le_10 = add64 m.le_10 1;
      le_25 = add64 m.le_25 1;
      le_50 = add64 m.le_50 1;
      le_100 = add64 m.le_100 1;
      le_250 = add64 m.le_250 1;
      le_500 = add64 m.le_500 1;
    }
    else (if leb ns bound_10
        then record m {
          le_10 = add64 m.le_10 1;
          le_25 = add64 m.le_25 1;
          le_50 = add64 m.le_50 1;
          le_100 = add64 m.le_100 1;
          le_250 = add64 m.le_250 1;
          le_500 = add64 m.le_500 1;
        }
        else (if leb ns bound_25
            then record m {
              le_25 = add64 m.le_25 1;
              le_50 = add64 m.le_50 1;
              le_100 = add64 m.le_100 1;
              le_250 = add64 m.le_250 1;
              le_500 = add64 m.le_500 1;
            }
            else (if leb ns bound_50
                then record m {
                  le_50 = add64 m.le_50 1;
                  le_100 = add64 m.le_100 1;
                  le_250 = add64 m.le_250 1;
                  le_500 = add64 m.le_500 1;
                }
                else (if leb ns bound_100
                    then record m {
                      le_100 = add64 m.le_100 1;
                      le_250 = add64 m.le_250 1;
                      le_500 = add64 m.le_500 1;
                    }
                    else (if leb ns bound_250
                        then record m { le_250 = add64 m.le_250 1; le_500 = add64 m.le_500 1 }
                        else (if leb ns bound_500
                            then record m { le_500 = add64 m.le_500 1 }
                            else m))))))

unfoldable pub observe_queue_send_latency : ℤ → Metrics → Metrics
unfolding observe_buckets
observe_queue_send_latency (negsuc n) m = m
observe_queue_send_latency (pos ns) m = observe_buckets ns (record m {
  latency_count = add64 m.latency_count 1;
  latency_sum_ns = add64 m.latency_sum_ns ns;
})

pub record HistogramBucket : Type 0 where
  pub le : Text
  pub count : ℕ

-- `sum_ns` is what the code divides by a second's nanoseconds, in floating point.
pub record HistogramSnapshot : Type 0 where
  pub buckets : List HistogramBucket
  pub sum_ns : ℕ
  pub count : ℕ

pub record MetricsSnapshot : Type 0 where
  pub ws_connections : ℕ
  pub queue_depth : ℕ
  pub queue_sent_total : ℕ
  pub queue_send_failed_total : ℕ
  pub queue_rejected_total : ℕ
  pub queue_dropped_total : ℕ
  pub events_broadcast_total : ℕ
  pub queue_send_latency : HistogramSnapshot
  pub dropped_by_session : Map ℕ

unfoldable pub snapshot : Metrics → MetricsSnapshot
snapshot m = record {
  ws_connections = m.ws_connections;
  queue_depth = m.queue_depth;
  queue_sent_total = m.queue_sent_total;
  queue_send_failed_total = m.queue_send_failed_total;
  queue_rejected_total = m.queue_rejected_total;
  queue_dropped_total = m.queue_dropped_total;
  events_broadcast_total = m.events_broadcast_total;
  queue_send_latency = record {
    buckets =
        record { le = codes "0.05"; count = m.le_05 }
        ∷ record { le = codes "0.1"; count = m.le_10 }
        ∷ record { le = codes "0.25"; count = m.le_25 }
        ∷ record { le = codes "0.5"; count = m.le_50 }
        ∷ record { le = codes "1"; count = m.le_100 }
        ∷ record { le = codes "2.5"; count = m.le_250 }
        ∷ record { le = codes "5"; count = m.le_500 }
        ∷ [];
    sum_ns = m.latency_sum_ns;
    count = m.latency_count;
  };
  dropped_by_session = m.dropped_by_session;
}
