-- ===== src/Tests/Sharding.antt =====
-- A ring that locates each group at the first instance, but one group at the last.
use lag_radar.Base.{
  ◌≡◌, refl, ap, ◌∙◌, Bool, true, false, List, [], ◌∷◌, Option, some, none, arith, if◌then◌else◌,
}
use lag_radar.Base.Int.{ℤ, pos}
use lag_radar.Base.Text.{Str, codes, str_eq, str_eq_refl}
use lag_radar.Base.Map.{Map, lookup}
use lag_radar.Distributed.Sharding.{ConsistentHashConfig, Ring, assign_groups}
use lag_radar.Distributed.Sharding.Owners.{listed, IsRing, located, lookup-assign_groups}
use lag_radar.Tests.{orders, billing, lost, local}

abbrev first_of : List Str → Str
first_of [] = []
first_of (i ∷ is) = i

abbrev last_of : List Str → Str
last_of [] = []
last_of (i ∷ []) = i
last_of (i ∷ j ∷ is) = last_of (j ∷ is)

abbrev members_only : List Str → Option (List Str)
members_only [] = none
members_only (i ∷ is) = some (i ∷ is)

abbrev ring : Ring ℤ (List Str)
ring = record {
  new_ring = λ members config. members_only members;
  locate_key = λ members group. if str_eq group billing then last_of members else first_of members;
}

listed-first_of : (i : Str) (is : List Str) → listed (first_of (i ∷ is)) (i ∷ is) ≡ true
listed-first_of i is = rw (str_eq_refl i)

listed-last_of : (i : Str) (is : List Str) → listed (last_of (i ∷ is)) (i ∷ is) ≡ true
listed-last_of i [] = rw (str_eq_refl i)
listed-last_of i (j ∷ is) = ground (arith, listed-last_of j is)

either :
    (b : Bool) (i : Str) (is : List Str)
    → listed (if b then last_of (i ∷ is) else first_of (i ∷ is)) (i ∷ is) ≡ true
either true i is = listed-last_of i is
either false i is = listed-first_of i is

ring-IsRing : IsRing ring
ring-IsRing = record {
  locate_key-listed = λ members config r group made. located_at members r group made;
}
  where
    located_at :
        (members r : List Str) (group : Str)
        → members_only members ≡ some r
        → listed (ring.locate_key r group) members ≡ true
    located_at [] r group made = absurd (ground arith)
    located_at (i ∷ is) r group made =
        let same : r ≡ i ∷ is = ground arith in
        ap (λ m. listed (ring.locate_key m group) (i ∷ is)) same
        ∙ either (str_eq group billing) i is

abbrev config : ConsistentHashConfig ℤ
config = record { partition_count = pos 3; replication_factor = pos 1; load = pos 2 }

lookup-assign_groups_example :
    (assignments : Map (List Str)) × (assign_groups ring config
        (orders ∷ billing ∷ lost ∷ [])
        (local ∷ codes "other" ∷ [])
      ≡ some assignments)
    × (lookup local assignments ≡ some (orders ∷ lost ∷ []))
unfolding located str_eq
lookup-assign_groups_example =
    lookup-assign_groups ring config (orders ∷ billing ∷ lost ∷ []) local (codes "other" ∷ []) local
      ring-IsRing refl
