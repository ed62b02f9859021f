-- ===== src/Tests.antt =====
-- Concrete data for the tests: a collector of two groups, over whole numbers in place of `float64`.
mod Evaluator
mod Windows
mod Collection
mod Goroutines
mod Rca
mod Cluster
mod Server
mod Store
mod Offline
mod Sharding
mod Consumer
mod Delivery
mod Api
mod Monitor
mod System
use lag_radar.Base.{ℕ, ◌+◌, ◌*◌, Bool, List, [], ◌∷◌, none, if◌then◌else◌}
use lag_radar.Base.Int.{ℤ, pos, negsuc, pos_part, neg_part, ◌+ℤ◌, ◌-ℤ◌, ◌*ℤ◌, ltb_ℤ}
use lag_radar.Base.Word.{eqb_ℤ}
use lag_radar.Base.Text.{Str, codes, str_eq}
use lag_radar.Base.Clock.{Time, second, quot}
use lag_radar.Base.Float.{Float64}
use lag_radar.Base.Map.{Map}
use lag_radar.Base.Result.{Result, ok, err}
use lag_radar.Collector.Types.{OffsetRecord, Config}
use lag_radar.Collector.State.{
  TopicPartitionOffset, Error, client_error, Round, Setup, Collector, new_with_client,
}

instance abbrev pub whole : Float64 ℤ
whole = record {
  of_int = λ z. z;
  add = λ a b. a +ℤ b;
  sub = λ a b. a -ℤ b;
  mul = λ a b. a *ℤ b;
  div = λ a b. quot a (pos_part b);
  abs = λ a. pos (pos_part a + neg_part a);
  lt = ltb_ℤ;
  eq = eqb_ℤ;
}

abbrev pub small : Config ℤ
small = record {
  window_size = 2;
  min_window_size = 2;
  check_interval = pos (30 * second);
  stalled_consumption_rate = pos 1;
  rapid_lag_increase_rate = pos 10;
  lag_trend_threshold = pos 1;
  inactivity_timeout = pos (60 * second);
  max_concurrency = 1;
}

-- A record of a group at a number of seconds, with its lag.
abbrev pub seen : ℤ → ℤ → ℕ → OffsetRecord
seen offset lag at_second = record {
  offset = offset;
  high_watermark = offset +ℤ lag;
  lag = lag;
  check_timestamp = pos (at_second * second);
}

abbrev pub orders : Str
orders = codes "orders"

abbrev pub billing : Str
billing = codes "billing"

abbrev pub lost : Str
lost = codes "lost"

abbrev pub local : Str
local = codes "local"

abbrev pub first_partition : TopicPartitionOffset
first_partition = record { topic = orders; partition = pos 0; offset = pos 5 }

-- Kafka lists two groups and gives the offsets of the first one.
abbrev pub groups : List Str
groups = billing ∷ lost ∷ []

abbrev pub offsets : List TopicPartitionOffset
offsets = first_partition ∷ []

abbrev pub answer : Str → Result Error (List TopicPartitionOffset)
answer g = if str_eq g billing then ok offsets else err (client_error 1)

abbrev pub round : Round ℤ
round = record {
  list_consumer_groups = ok groups;
  get_consumer_group_members = ok [];
  get_consumer_group_offsets = answer;
  get_high_watermark = λ g tpo. ok (pos 9);
  now = λ g tpo. pos second;
  group_now = λ g. pos second;
  group_seconds = λ g. pos 0;
  scrape_seconds = pos 1;
}

-- Kafka does not answer.
abbrev pub down : Round ℤ
down = record round {
  list_consumer_groups = err (client_error 2);
  get_consumer_group_offsets = λ g. err (client_error 3);
  get_high_watermark = λ g tpo. err (client_error 4);
}

abbrev pub setup : Setup ℤ ℕ
setup = record { config = small; evaluation_hook = none; offset_invalid = negsuc 1000 }

abbrev pub fresh : Collector ℤ ℕ
fresh = record {
  windows = [];
  status_store = [];
  has_collected = Bool.false;
  hook_state = 0;
  written = [];
}
