-- ===== src/Metrics.antt =====
-- internal/metrics/metrics.go: the metrics with their label names, and the calls that write to them.
-- The registry of the Prometheus client is not modelled: a write is an entry of a log.
use lag_radar.Base.{List, [], ◌∷◌, length, ◌≡◌}
use lag_radar.Base.Text.{Str, codes}

-- The variables of the file.
pub data Metric : Type 0 where
  consumer_lag consumer_current_offset log_end_offset consumer_group_members : Metric
  scrape_duration scrape_errors : Metric
  consumer_group_health consumer_group_total_lag consumer_group_active_partitions : Metric
  consumer_group_stopped_partitions consumer_group_stalled_partitions : Metric
  consumer_status consumer_lag_trend consumer_health : Metric
  consumer_consumption_rate consumer_lag_change_rate consumer_time_since_last_activity : Metric
  consumer_last_activity_timestamp : Metric
  collection_duration active_consumer_groups cluster_status : Metric

partition_labels : List Str
partition_labels = codes "cluster" ∷ codes "group" ∷ codes "topic" ∷ codes "partition" ∷ []

consumer_labels : List Str
consumer_labels = codes "cluster" ∷ codes "consumer_group" ∷ codes "topic" ∷ codes "partition" ∷ []

-- The label names that a metric declares.
unfoldable pub label_names : Metric → List Str
unfolding partition_labels consumer_labels
label_names consumer_lag = consumer_labels
label_names consumer_current_offset = consumer_labels
label_names log_end_offset = codes "cluster" ∷ codes "topic" ∷ codes "partition" ∷ []
label_names consumer_group_members = codes "cluster" ∷ codes "consumer_group" ∷ []
label_names scrape_duration = codes "cluster" ∷ []
label_names scrape_errors = codes "cluster" ∷ []
label_names consumer_group_health = codes "cluster" ∷ codes "group" ∷ []
label_names consumer_group_total_lag = codes "cluster" ∷ codes "group" ∷ []
label_names consumer_group_active_partitions = codes "cluster" ∷ codes "group" ∷ []
label_names consumer_group_stopped_partitions = codes "cluster" ∷ codes "group" ∷ []
label_names consumer_group_stalled_partitions = codes "cluster" ∷ codes "group" ∷ []
label_names consumer_status = partition_labels
label_names consumer_lag_trend = partition_labels
label_names consumer_health = partition_labels
label_names consumer_consumption_rate = partition_labels
label_names consumer_lag_change_rate = partition_labels
label_names consumer_time_since_last_activity = partition_labels
label_names consumer_last_activity_timestamp = partition_labels
label_names collection_duration = codes "cluster" ∷ codes "consumer_group" ∷ []
label_names active_consumer_groups = codes "cluster" ∷ []
label_names cluster_status = codes "cluster" ∷ []

-- `WithLabelValues(labels...)` with `Set`, `Inc` or `Observe`.
pub data Write (F : Type 0) : Type 0 where
  set : Metric → List Str → F → Write F
  inc : Metric → List Str → Write F
  observe : Metric → List Str → F → Write F

abbrev pub Fits : Metric → List Str → Type 0
Fits m labels = length labels ≡ length (label_names m)

-- A write gives as many label values as its metric declares.
abbrev pub IsLabelled : {F : Type 0} → Write F → Type 0
IsLabelled (set m labels v) = Fits m labels
IsLabelled (inc m labels) = Fits m labels
IsLabelled (observe m labels v) = Fits m labels
