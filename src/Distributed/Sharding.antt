-- ===== src/Distributed/Sharding.antt =====
-- distributed/coordinator/sharding.go: `ConsistentHashSharding`. The ring of the consistent hashing
-- library, with its hash function, is a parameter.
pub mod Owners
use lag_radar.Base.{Bool, ◌||◌, List, [], ◌∷◌, ◌++◌, Option, none, some, if◌then◌else◌}
use mathlib.Core.Option
use lag_radar.Base.Int.{ℤ, pos, ltb_ℤ}
use lag_radar.Base.Text.{Str}
use lag_radar.Base.Float.{Float64, zero_float}
use lag_radar.Base.Map.{Map, lookup, insert}

pub record ConsistentHashConfig (F : Type 0) : Type 0 where
  pub partition_count : ℤ
  pub replication_factor : ℤ
  pub load : F

-- `consistent.New` on members and a configuration, which panics (`none`) where the load leaves no room
-- for the partitions; and `LocateKey`.
pub record Ring (F R : Type 0) : Type 0 where
  pub new_ring : List Str → ConsistentHashConfig F → Option R
  pub locate_key : R → Str → Str

abbrev is_positive : ℤ → Bool
is_positive z = ltb_ℤ (pos 0) z

module _ {F : Type 0} ⦃f : Float64 F⦄ where
  unfoldable pub default_config : ConsistentHashConfig F
  default_config = record {
    partition_count = pos 997;
    replication_factor = pos 20;
    load = f.div (f.of_int (pos 5)) (f.of_int (pos 4));
  }

  -- `NewConsistentHashShardingWithConfig`
  unfoldable pub with_defaults : ConsistentHashConfig F → ConsistentHashConfig F
  unfolding default_config
  with_defaults config = record {
    partition_count =
        if is_positive config.partition_count then config.partition_count else pos 997;
    replication_factor =
        if is_positive config.replication_factor then config.replication_factor else pos 20;
    load =
        if f.lt config.load zero_float || f.eq config.load zero_float
        then f.div (f.of_int (pos 5)) (f.of_int (pos 4))
        else config.load;
  }

abbrev pub or_nil : Option (List Str) → List Str
or_nil none = []
or_nil (some groups) = groups

-- The loop that gives every instance an empty list.
unfoldable pub no_groups : List Str → Map (List Str) → Map (List Str)
no_groups [] assignments = assignments
no_groups (instance ∷ instances) assignments = no_groups instances (insert instance [] assignments)

module _ {F R : Type 0} (ring : Ring F R) where
  -- The loop over the groups.
  unfoldable pub assign_each : R → List Str → Map (List Str) → Map (List Str)
  assign_each r [] assignments = assignments
  assign_each r (group ∷ groups) assignments =
      let member = ring.locate_key r group in
      assign_each r groups
        (insert member (or_nil (lookup member assignments) ++ group ∷ []) assignments)

  assign_on : List Str → List Str → Option R → Option (Map (List Str))
  assign_on groups instances none = none
  assign_on groups instances (some r) = some (assign_each r groups (no_groups instances []))

  -- `AssignGroups`; `none` is the panic of the ring.
  unfoldable pub assign_groups :
      ConsistentHashConfig F → List Str → List Str → Option (Map (List Str))
  unfolding assign_on
  assign_groups config groups [] = some []
  assign_groups config groups (instance ∷ instances) =
      assign_on groups (instance ∷ instances) (ring.new_ring (instance ∷ instances) config)
