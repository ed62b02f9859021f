-- ===== src/Rca/Events.antt =====
-- internal/rca/events.go, and the configuration of the publisher in internal/rca/config.go.
use lag_radar.Base.{ℕ, Bool}
use lag_radar.Base.Int.{ℤ}
use lag_radar.Base.Text.{Str, codes}
use lag_radar.Base.Clock.{Time, Duration}
use lag_radar.Collector.Types.{ConsumerStatus, LagTrend, ConsumerHealth, Message}

pub data EventSeverity : Type 0 where
  info warning critical : EventSeverity

pub data EventType : Type 0 where
  consumer_stopped consumer_stalled rapid_lag_increase consumer_recovered lag_cleared : EventType

-- The constants' texts.
unfoldable pub event_type_name : EventType → Str
event_type_name consumer_stopped = codes "consumer_stopped"
event_type_name consumer_stalled = codes "consumer_stalled"
event_type_name rapid_lag_increase = codes "rapid_lag_increase"
event_type_name consumer_recovered = codes "consumer_recovered"
event_type_name lag_cleared = codes "lag_cleared"

abbrev pub source_lag_radar : Str
source_lag_radar = codes "lagradar"

-- The texts of the descriptions, as formats with their arguments.
pub data Description (F : Type 0) : Type 0 where
  from_status : Message F → Description F
  rising_rapidly : F → F → Description F
  cleared_lag : Description F

-- `BaseEvent.Data`
pub record EventData (F : Type 0) : Type 0 where
  pub window_completeness : F
  pub health : ConsumerHealth
  pub status : ConsumerStatus
  pub lag_trend : LagTrend
  pub is_active : Bool

-- `KafkaLagEvent` with the fields of its `BaseEvent` that are set. The title is a format of the type and
-- the group.
pub record KafkaLagEvent (F : Type 0) : Type 0 where
  pub id : Str
  pub source : Str
  pub event_type : EventType
  pub severity : EventSeverity
  pub timestamp : Time
  pub cluster : Str
  pub description : Description F
  pub details : EventData F
  pub fingerprint : Str
  pub consumer_group : Str
  pub topic : Str
  pub partition : ℤ
  pub current_lag : ℤ
  pub current_offset : ℤ
  pub high_watermark : ℤ
  pub consumption_rate : F
  pub lag_change_rate : F
  pub time_since_last_move : Duration

-- A negative `max_retries` is the same as 0.
pub record PublisherConfig : Type 0 where
  pub enabled : Bool
  pub stream_key : Str
  pub max_retries : ℕ
  pub de_dupe_window : Duration
