-- ===== src/Exporter/Prometheus.antt =====
-- `format_prometheus_text` of peerq/exporter.py. The formatting of floats is a parameter.
use peer_q.Prelude.{
  ℕ, ◌+◌, Str, Option, none, some, List, [], ◌∷◌, ◌++◌, codes, if◌then◌else◌, ◌==◌, nat_ordered,
  str_ordered,
}
use peer_q.Prelude.Int.{pos}
use peer_q.Crypto.{is_empty}
use peer_q.Metrics.{
  LogLinearHistogram, MetricsCollector, get_counter, get_histogram, CeilProduct, quantile,
}
use peer_q.Exporter.Html.{decimal, join}

-- A key of the collector, the name of its metric, and the help text.
pub record Exported : Type 0 where
  pub key : Str
  pub metric_name : Str
  pub help_text : Str

abbrev exported : Str → Str → Str → Exported
exported key name help = record { key = key; metric_name = name; help_text = help }

abbrev pub counter_metric_names : List Exported
counter_metric_names =
    exported (codes "enqueued") (codes "peerq_tasks_enqueued_total")
      (codes "Total tasks admitted into local queue")
    ∷ exported (codes "claimed") (codes "peerq_tasks_claimed_total")
        (codes "Total tasks claimed by workers")
    ∷ exported (codes "completed") (codes "peerq_tasks_completed_total")
        (codes "Total tasks successfully completed")
    ∷ exported (codes "failed") (codes "peerq_tasks_failed_total")
        (codes "Total tasks that encountered errors")
    ∷ exported (codes "reclaimed") (codes "peerq_tasks_reclaimed_total")
        (codes "Total tasks reclaimed after lease expiry")
    ∷ exported (codes "rejected") (codes "peerq_tasks_rejected_total")
        (codes "Total stale task commits rejected by fencing")
    ∷ []

abbrev pub histogram_metric_names : List Exported
histogram_metric_names =
    exported (codes "task_latency") (codes "peerq_task_execution_latency_seconds")
      (codes "Task handler execution latency")
    ∷ exported (codes "claim_latency") (codes "peerq_claim_latency_seconds")
        (codes "Task claim scheduling latency")
    ∷ exported (codes "gossip_latency") (codes "peerq_gossip_latency_seconds")
        (codes "Gossip anti-entropy propagation latency")
    ∷ []

abbrev pub labels_of : Str → Str
labels_of node_id = if is_empty node_id then [] else codes "{node=\"" ++ (node_id ++ codes "\"}")

abbrev pub prefix_of : Str → Str
prefix_of node_id = if is_empty node_id then [] else codes "node=\"" ++ (node_id ++ codes "\",")

abbrev pub headed : Exported → Str → List Str → List Str
headed x kind lines =
    (codes "# HELP " ++ (x.metric_name ++ (codes " " ++ x.help_text)))
    ∷ (codes "# TYPE " ++ (x.metric_name ++ (codes " " ++ kind)))
    ∷ lines

unfoldable pub counter_lines : MetricsCollector → Str → List Exported → List Str
counter_lines m node_id [] = []
counter_lines m node_id (x ∷ xs) = headed x (codes "counter") (
    (x.metric_name ++ (labels_of node_id ++ (codes " " ++ decimal (get_counter x.key m))))
    ∷ counter_lines m node_id xs)

abbrev pub quantile_line : Exported → Str → Str → Str → Str
quantile_line x node_id q value =
    x.metric_name
    ++ (codes "{" ++ (prefix_of node_id ++ (codes "quantile=\"" ++ (q ++ (codes "\"} " ++ value)))))

abbrev pub plain_line : Exported → Str → Str → Str → Str
plain_line x node_id suffix value =
    x.metric_name ++ (suffix ++ (labels_of node_id ++ (codes " " ++ value)))

-- `fixed6` formats a number of half microseconds in seconds, `.6f`.
module _ (ceil_product : CeilProduct) (fixed6 : ℕ → Str) where
  unfoldable pub summary_lines : Str → Exported → LogLinearHistogram → List Str
  summary_lines node_id x h =
      if h.total_count == 0
      then quantile_line x node_id (codes "0.5") (codes "0.0")
        ∷ quantile_line x node_id (codes "0.95") (codes "0.0")
        ∷ quantile_line x node_id (codes "0.99") (codes "0.0")
        ∷ plain_line x node_id (codes "_count") (codes "0")
        ∷ plain_line x node_id (codes "_sum") (codes "0.0")
        ∷ []
      else quantile_line x node_id (codes "0.5") (fixed6 (quantile ceil_product (pos 50) 100 h))
        ∷ quantile_line x node_id (codes "0.95") (fixed6 (quantile ceil_product (pos 95) 100 h))
        ∷ quantile_line x node_id (codes "0.99") (fixed6 (quantile ceil_product (pos 99) 100 h))
        ∷ plain_line x node_id (codes "_count") (decimal (pos h.total_count))
        ∷ plain_line x node_id (codes "_sum") (fixed6 (h.sum + h.sum))
        ∷ []

  abbrev pub with_summary : Str → Exported → Option LogLinearHistogram → List Str → List Str
  with_summary node_id x none rest = rest
  with_summary node_id x (some h) rest =
      headed x (codes "summary") (summary_lines node_id x h ++ rest)

  unfoldable pub histogram_lines : MetricsCollector → Str → List Exported → List Str
  histogram_lines m node_id [] = []
  histogram_lines m node_id (x ∷ xs) =
      with_summary node_id x (get_histogram x.key m) (histogram_lines m node_id xs)

  unfoldable pub format_prometheus_text : MetricsCollector → Str → Str
  format_prometheus_text m node_id = join (10 ∷ []) (
      counter_lines m node_id counter_metric_names
      ++ (histogram_lines m node_id histogram_metric_names ++ ([] ∷ [])))
