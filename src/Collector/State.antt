-- ===== src/Collector/State.antt =====
-- internal/collector/collector.go: the collector's state, and what Kafka and the clock answer it.
use lag_radar.Base.{ℕ, Bool, false, List, [], Option}
use lag_radar.Base.Int.{ℤ}
use lag_radar.Base.Text.{Str}
use lag_radar.Base.Clock.{Time}
use lag_radar.Base.Map.{Map}
use lag_radar.Base.Result.{Result}
use lag_radar.Metrics.{Write}
use lag_radar.Collector.Types.{OffsetRecord, PartitionConsumerStatus, GroupStatus, Config}
use lag_radar.Collector.Window.{Windows}

-- pkg/kafka/client.go: `TopicPartitionOffset`.
pub record TopicPartitionOffset : Type 0 where
  pub topic : Str
  pub partition : ℤ
  pub offset : ℤ

-- An error of the Kafka client, by a number, and those that the collector wraps round it.
pub data Error : Type 0 where
  client_error : ℕ → Error
  group_offsets_failed : Str → Error → Error
  list_groups_failed : Str → Error → Error

-- The interface `KafkaClient`, with the clock: the answers to the calls of one collection. A call for
-- a partition is made for a group, so its answer may differ from group to group.
pub record Round (F : Type 0) : Type 0 where
  pub list_consumer_groups : Result Error (List Str)
  pub get_consumer_group_members : Result Error (Map ℕ)
  pub get_consumer_group_offsets : Str → Result Error (List TopicPartitionOffset)
  pub get_high_watermark : Str → TopicPartitionOffset → Result Error ℤ
  pub now : Str → TopicPartitionOffset → Time
  pub group_now : Str → Time
  pub group_seconds : Str → F
  pub scrape_seconds : F

-- The evaluation hook works on a state `H` of its own.
abbrev pub Hook : Type 0 → Type 0 → Type 0
Hook F H = PartitionConsumerStatus F → List OffsetRecord → H → H

-- The fields of `Collector` that are set once, with `kafka.OffsetInvalid` of the Kafka library.
pub record Setup (F H : Type 0) : Type 0 where
  pub config : Config F
  pub evaluation_hook : Option (Hook F H)
  pub offset_invalid : ℤ

-- The fields that change. `written` is the log of the writes to the metrics, the oldest first.
pub record Collector (F H : Type 0) : Type 0 where
  pub windows : Windows
  pub status_store : Map (GroupStatus F)
  pub has_collected : Bool
  pub hook_state : H
  pub written : List (Write F)

-- `NewWithClient`
unfoldable pub new_with_client : {F H : Type 0} → H → Collector F H
new_with_client h = record {
  windows = [];
  status_store = [];
  has_collected = false;
  hook_state = h;
  written = [];
}
