-- ===== src/Distributed/Sharding/Owners.antt =====
-- `AssignGroups`: which groups an instance is given.
use lag_radar.Base.{
  ◌≡◌, refl, sym, ap, ◌∙◌, inl, inr, Bool, true, false, List, [], ◌∷◌, ◌++◌, Option, none, some,
  arith, Bool-cases, Option-cases, if◌then◌else◌, IsSome, append_assoc, append-nil, ◌||◌,
}
use lag_radar.Base.Text.{Str, str_eq, str_eq_iff}
use lag_radar.Base.Map.{Map, lookup, insert, lookup-insert}
use lag_radar.Distributed.Sharding.{
  ConsistentHashConfig, Ring, or_nil, no_groups, assign_each, assign_groups,
}

-- A text is in a list.
abbrev pub listed : Str → List Str → Bool
listed i [] = false
listed i (j ∷ js) = str_eq j i || listed i js

-- What the sharding relies on of the ring: a key is located at one of the members.
pub record IsRing {F R : Type 0} (ring : Ring F R) : Type 0 where
  pub locate_key-listed :
      (members : List Str) (config : ConsistentHashConfig F) (r : R) (key : Str)
      → ring.new_ring members config ≡ some r
      → listed (ring.locate_key r key) members ≡ true

lookup-no_groups :
    (i : Str) (instances : List Str) (m : Map (List Str))
    → lookup i (no_groups instances m) ≡ (if listed i instances then some [] else lookup i m)
unfolding no_groups
lookup-no_groups i [] m = refl
lookup-no_groups i (j ∷ instances) m =
    lookup-no_groups i instances (insert j [] m) ∙ ground (arith, lookup-insert j i [] m)

module _ {F R : Type 0} (ring : Ring F R) (r : R) where
  -- The groups of a list that are located at the instance, in their order.
  unfoldable pub located : Str → List Str → List Str
  located i [] = []
  located i (group ∷ groups) =
      let rest = located i groups in
      if str_eq (ring.locate_key r group) i then group ∷ rest else rest

  abbrev extended : List Str → Option (List Str) → Option (List Str)
  extended more none = none
  extended more (some groups) = some (groups ++ more)

  -- Every group is located at a key of the map.
  abbrev Homes : Map (List Str) → Type 0
  Homes m = (group : Str) → IsSome (lookup (ring.locate_key r group) m)

  abbrev appended : Str → Map (List Str) → Map (List Str)
  appended group m =
      let member = ring.locate_key r group in
      insert member (or_nil (lookup member m) ++ group ∷ []) m

  appended-Homes : (group : Str) (m : Map (List Str)) → Homes m → Homes (appended group m)
  appended-Homes group m homes other =
      let member = ring.locate_key r group in
      let more = or_nil (lookup member m) ++ group ∷ [] in
      let found = lookup-insert member (ring.locate_key r other) more m in
      elim (Bool-cases (str_eq member (ring.locate_key r other))) [
        | inl same ↦ (more, found ∙ rw same)
        | inr differs ↦ ((homes other).0, found ∙ rw differs (homes other).1)
      ]

  lookup-assign_each :
      (i : Str) (groups : List Str) (m : Map (List Str))
      → Homes m
      → lookup i (assign_each ring r groups m) ≡ extended (located i groups) (lookup i m)
  unfolding assign_each located
  lookup-assign_each i [] m homes = elim (Option-cases (lookup i m)) [
    | inl gone ↦ rw gone
    | inr (groups, there) ↦ rw there (ap some (sym (append-nil groups)))
  ]
  lookup-assign_each i (group ∷ groups) m homes =
      lookup-assign_each i groups (appended group m) (appended-Homes group m homes) ∙ added
    where
      added :
          extended (located i groups) (lookup i (appended group m))
          ≡ extended (located i (group ∷ groups)) (lookup i m)
      added =
          let member = ring.locate_key r group in
          let more = or_nil (lookup member m) ++ group ∷ [] in
          let (before, there) = homes group in
          elim (Bool-cases (str_eq member i)) [
            | inl same ↦
                let here : lookup i m ≡ some before =
                  ap (λ k. lookup k m) (sym ((str_eq_iff member i).0 same)) ∙ there in
                rw (lookup-insert member i more m, same, there, here)
                  (ap some (append_assoc before (group ∷ []) (located i groups)))
            | inr other ↦ rw (lookup-insert member i more m, other)
          ]

-- Where the ring of the instances can be made, an instance is given exactly the groups that are located
-- at it, each once and in their order, and every instance has an entry; nothing else is in the map.
pub lookup-assign_groups :
    {F R : Type 0} (ring : Ring F R) (config : ConsistentHashConfig F) (groups : List Str)
    (first : Str) (rest : List Str) (i : Str) {r : R}
    → IsRing ring
    → ring.new_ring (first ∷ rest) config ≡ some r
    → (assignments : Map (List Str)) × (assign_groups ring config groups (first ∷ rest)
        ≡ some assignments)
      × (lookup i assignments
          ≡ (if listed i (first ∷ rest) then some (located ring r i groups) else none))
unfolding assign_groups lookup
lookup-assign_groups ring config groups first rest i {r} laws made =
    let instances = first ∷ rest in
    let start = no_groups instances [] in
    let homes : (group : Str) → IsSome (lookup (ring.locate_key r group) start) = λ group. (
      [],
      lookup-no_groups (ring.locate_key r group) instances []
          ∙ rw (laws.locate_key-listed instances config r group made),
    ) in
    (
      assign_each ring r groups start,
      rw made,
      lookup-assign_each ring r i groups start homes
          ∙ rw (lookup-no_groups i instances []) (from_start (listed i instances)),
    )
  where
    from_start :
        (b : Bool)
        → extended ring r (located ring r i groups) (if b then some [] else none)
          ≡ (if b then some (located ring r i groups) else none)
    from_start true = refl
    from_start false = refl
