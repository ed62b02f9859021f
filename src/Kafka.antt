-- ===== src/Kafka.antt =====
-- pkg/kafka/client.go: `Client`, over the admin client and the consumer of the Kafka library.
pub mod Handles
pub mod Answers
use lag_radar.Base.{
  ℕ, Bool, true, false, List, [], ◌∷◌, ◌++◌, ◌*◌, Option, none, some, length, if◌then◌else◌,
}
use lag_radar.Base.Int.{ℤ, pos}
use lag_radar.Base.Word.{eqb_ℤ}
use lag_radar.Base.Text.{Str, codes}
use lag_radar.Base.Clock.{Duration, second, quot}
use lag_radar.Base.Map.{Map, insert}
use lag_radar.Base.Result.{Result, ok, err}
use lag_radar.Collector.State.{TopicPartitionOffset, Error, client_error, Round}

-- `Config`
pub record ClientConfig : Type 0 where
  pub brokers : Str
  pub consumer_group : Str
  pub request_timeout : Duration

-- `kafka.TopicPartition`, whose topic is a pointer, of the Kafka library.
pub record TopicPartition : Type 0 where
  pub named : Option Str
  pub partition : ℤ
  pub offset : ℤ

-- `kafka.ConsumerGroupDescription` of the Kafka library.
pub record Description : Type 0 where
  pub group_id : Str
  pub error_code : ℤ
  pub members : List Str

-- What the Kafka library answers: admin clients are values of `A`, consumers values of `C`.
pub record Library (A C : Type 0) : Type 0 where
  pub new_admin : Str → ℤ → Result ℕ A
  pub new_consumer : Str → Str → Result ℕ C
  pub admin_groups : A → Result ℕ (List Str)
  pub admin_offsets : A → Str → Result ℕ (List (List TopicPartition))
  pub watermarks : C → Str → ℤ → ℤ → Result ℕ (ℤ × ℤ)
  pub descriptions : A → List Str → Result ℕ (List Description)
  pub err_no_error : ℤ

-- What is done to the handles of the library.
pub data Handling (A C : Type 0) : Type 0 where
  admin_made : A → Handling A C
  consumer_made : C → Handling A C
  admin_closed : A → Handling A C
  consumer_closed : C → Handling A C

pub data NewError : Type 0 where
  admin_failed : ℕ → NewError
  consumer_failed : ℕ → NewError

-- The fields are pointers.
pub record Client (A C : Type 0) : Type 0 where
  pub admin : Option A
  pub consumer : Option C
  pub config : ClientConfig

abbrev is_empty : Str → Bool
is_empty [] = true
is_empty (c ∷ cs) = false

-- The defaults of `NewClient`.
unfoldable pub with_defaults : ClientConfig → ClientConfig
with_defaults config = record config {
  consumer_group =
      if is_empty config.consumer_group
      then codes "lagradar_metrics_collector"
      else config.consumer_group;
  request_timeout =
      if eqb_ℤ config.request_timeout (pos 0) then pos (5 * second) else config.request_timeout;
}

-- `int(config.RequestTimeout.Milliseconds())`
unfoldable pub timeout_ms : ClientConfig → ℤ
timeout_ms config = quot config.request_timeout 1_000_000

module _ {A C : Type 0} where
  with_consumer : ClientConfig → A → Result ℕ C → Result NewError (Client A C) × List (Handling A C)
  with_consumer config a (err e) = (err (consumer_failed e), admin_made a ∷ admin_closed a ∷ [])
  with_consumer config a (ok c) = (
    ok (record { admin = some a; consumer = some c; config = config }),
    admin_made a ∷ consumer_made c ∷ [],
  )

  with_admin :
      Library A C → ClientConfig → Result ℕ A → Result NewError (Client A C) × List (Handling A C)
  unfolding with_consumer
  with_admin library config (err e) = (err (admin_failed e), [])
  with_admin library config (ok a) =
      with_consumer config a (library.new_consumer config.brokers config.consumer_group)

  unfoldable pub new_client :
      Library A C → ClientConfig → Result NewError (Client A C) × List (Handling A C)
  unfolding with_admin
  new_client library config =
      let full = with_defaults config in
      with_admin library full (library.new_admin full.brokers (timeout_ms full))

  abbrev admin_closes : Option A → List (Handling A C)
  admin_closes none = []
  admin_closes (some a) = admin_closed a ∷ []

  abbrev consumer_closes : Option C → List (Handling A C)
  consumer_closes none = []
  consumer_closes (some c) = consumer_closed c ∷ []

  unfoldable pub close : Client A C → List (Handling A C)
  close client = admin_closes client.admin ++ consumer_closes client.consumer

-- The loop over the offsets: those without a topic are left out.
unfoldable pub with_topics : List TopicPartition → List TopicPartitionOffset
with_topics [] = []
with_topics (tp ∷ tps) = add_named tp.named (with_topics tps)
  where
    add_named : Option Str → List TopicPartitionOffset → List TopicPartitionOffset
    add_named none rest = rest
    add_named (some topic) rest =
        record { topic = topic; partition = tp.partition; offset = tp.offset } ∷ rest

abbrev first_group : List (List TopicPartition) → List TopicPartitionOffset
first_group [] = []
first_group (partitions ∷ groups) = with_topics partitions

-- The loop over the descriptions, on the map so far.
unfoldable pub count_members : ℤ → List Description → Map ℕ → Map ℕ
count_members no_error [] members = members
count_members no_error (desc ∷ descs) members = count_members no_error descs (
    if eqb_ℤ desc.error_code no_error
    then insert desc.group_id (length desc.members) members
    else members)

abbrev bare : {B D : Type 0} → (B → D) → Result ℕ B → Result Error D
bare f (err e) = err (client_error e)
bare f (ok b) = ok (f b)

module _ {A C : Type 0} (library : Library A C) (a : A) (c : C) (config : ClientConfig) where
  -- The operations of a client whose handles are `a` and `c`. An error is wrapped or not; it keeps its
  -- number.
  unfoldable pub list_consumer_groups : Result Error (List Str)
  list_consumer_groups = bare (λ groups. groups) (library.admin_groups a)

  unfoldable pub get_consumer_group_offsets : Str → Result Error (List TopicPartitionOffset)
  get_consumer_group_offsets group_id = bare first_group (library.admin_offsets a group_id)

  unfoldable pub get_high_watermark : Str → ℤ → Result Error ℤ
  get_high_watermark topic partition =
      bare (λ w. w.1) (library.watermarks c topic partition (timeout_ms config))

  unfoldable pub get_consumer_group_members : List Str → Result Error (Map ℕ)
  get_consumer_group_members group_ids =
      bare (λ descs. count_members library.err_no_error descs []) (library.descriptions a group_ids)

-- The groups that the collector asks the members of: those that were listed.
abbrev listed_groups : Result Error (List Str) → List Str
listed_groups (err e) = []
listed_groups (ok groups) = groups

-- What a client whose handles are `a` and `c` answers the collector in a collection, with the answers
-- of the clock.
unfoldable pub client_round :
    {A C F : Type 0} → Library A C → A → C → ClientConfig → Round F → Round F
client_round library a c config clock =
    let listed = list_consumer_groups library a c config in
    record clock {
      list_consumer_groups = listed;
      get_consumer_group_members =
          get_consumer_group_members library a c config (listed_groups listed);
      get_consumer_group_offsets = get_consumer_group_offsets library a c config;
      get_high_watermark =
          λ group_id tpo. get_high_watermark library a c config tpo.topic tpo.partition;
    }
