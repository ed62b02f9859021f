-- ===== src/Collector/Types.antt =====
-- internal/collector/collector.go: the data of the collector. `F` stands for `float64`.
use lag_radar.Base.{ℕ, Bool, List}
use lag_radar.Base.Int.{ℤ}
use lag_radar.Base.Text.{Str}
use lag_radar.Base.Clock.{Time, Duration}

-- The string types of the program; `no_status`, `no_trend` and `no_health` are the empty string, the
-- value of a field that was not set.
pub data ConsumerStatus : Type 0 where
  active lagging stalled stopped empty unknown no_status : ConsumerStatus

pub data LagTrend : Type 0 where
  increasing decreasing stable trend_unknown no_trend : LagTrend

pub data ConsumerHealth : Type 0 where
  good warning critical no_health : ConsumerHealth

pub record OffsetRecord : Type 0 where
  pub offset : ℤ
  pub high_watermark : ℤ
  pub lag : ℤ
  pub check_timestamp : Time

-- A window is its records, oldest first, and its size. Its lock is not modelled.
pub record PartitionWindow : Type 0 where
  pub records : List OffsetRecord
  pub window_size : ℕ

-- The texts that `fmt.Sprintf` makes, as the format with its arguments.
pub data Message (F : Type 0) : Type 0 where
  no_message : Message F
  no_data_available : Message F
  no_committed_offset : Message F
  insufficient_data : ℕ → ℕ → Message F
  idle_caught_up : Message F
  stopped_for : Duration → ℤ → Message F
  stalled_for : Duration → Message F
  slow_consumption : F → Message F
  active_caught_up : Message F
  lag_rising : F → Message F
  processing : F → ℤ → Message F

pub record PartitionConsumerStatus (F : Type 0) : Type 0 where
  pub group_id : Str
  pub topic : Str
  pub partition : ℤ
  pub current_offset : ℤ
  pub high_watermark : ℤ
  pub current_lag : ℤ
  pub last_update_time : Time
  pub status : ConsumerStatus
  pub lag_trend : LagTrend
  pub health : ConsumerHealth
  pub consumption_rate : F
  pub lag_change_rate : F
  pub window_completeness : F
  pub message : Message F
  pub is_active : Bool
  pub time_since_last_move : Duration

pub record GroupStatus (F : Type 0) : Type 0 where
  pub group_id : Str
  pub overall_health : ConsumerHealth
  pub total_lag : ℤ
  pub partition_count : ℕ
  pub active_partitions : ℕ
  pub stopped_partitions : ℕ
  pub stalled_partitions : ℕ
  pub member_count : ℤ
  pub last_update_time : Time
  pub critical_partitions : List (PartitionConsumerStatus F)
  pub warning_partitions : List (PartitionConsumerStatus F)
  pub healthy_partitions : List (PartitionConsumerStatus F)

-- The sizes are naturals: a negative one is refused by `make` at run time.
pub record Config (F : Type 0) : Type 0 where
  pub window_size : ℕ
  pub min_window_size : ℕ
  pub check_interval : Duration
  pub stalled_consumption_rate : F
  pub rapid_lag_increase_rate : F
  pub lag_trend_threshold : F
  pub inactivity_timeout : Duration
  pub max_concurrency : ℕ
