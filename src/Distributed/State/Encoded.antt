-- ===== src/Distributed/State/Encoded.antt =====
-- Assignments in the fields of a hash: what JSON keeps of them.
use lag_radar.Base.{◌≡◌, refl, inl, inr, true, List, [], ◌∷◌, Option, none, some, Bool-cases, All}
use lag_radar.Base.Text.{Str, str_eq}
use lag_radar.Base.Map.{Map, lookup, Distinct}
use lag_radar.Base.Result.{ok, Result-cases}
use lag_radar.Distributed.Types.{StateStoreConfig}
use lag_radar.Distributed.State.Interface.{KeyValue, Json}
use lag_radar.Distributed.State.Assignments.{marshal_assignments, unmarshal_assignments}

module _ {S : Type 0} (redis : KeyValue S) (json : Json) (config : StateStoreConfig) where
  -- A list of groups survives JSON.
  abbrev pub Survives : List Str → Type 0
  Survives groups =
      (payload : Str) × (json.marshal_groups groups ≡ ok payload)
      × (json.unmarshal_groups payload ≡ ok groups)

  -- A field of the hash stands for an assignment.
  abbrev pub Stands : Option (List Str) → Option Str → Type 0
  Stands none none = Unit
  Stands (some groups) (some payload) = json.unmarshal_groups payload ≡ ok groups
  Stands none (some payload) = ⊥
  Stands (some groups) none = ⊥

  pub Stands-none : (o : Option Str) → Stands none o → o ≡ none
  Stands-none none h = refl
  Stands-none (some p) h = absurd h

  pub marshal_assignments_lem :
      (assignments : Map (List Str))
      → Distinct assignments
      → All (λ e. Survives e.1) assignments
      → (entries : Map Str) × (marshal_assignments redis json config assignments ≡ ok entries)
        × Distinct entries
        × ((i : Str) → Stands (lookup i assignments) (lookup i entries))
  unfolding marshal_assignments lookup
  marshal_assignments_lem [] d h = ([], refl, tt, λ i. tt)
  marshal_assignments_lem ((k, groups) ∷ assignments) d h =
      let (payload, encoded, decoded) = h.0 in
      let (entries, done, distinct, stands) = marshal_assignments_lem assignments d.1 h.1 in
      (
        (k, payload) ∷ entries,
        rw (encoded, done),
        (Stands-none (lookup k entries) (rw d.0 at (stands k)), distinct),
        (λ i. elim (Bool-cases (str_eq k i)) [
          | inl same ↦ rw same decoded
          | inr other ↦ rw other (stands i)
        ]),
      )

  pub lookup-unmarshal_assignments :
      (o : Option (List Str)) (i : Str) (m : Map Str)
      → Stands o (lookup i m)
      → lookup i (unmarshal_assignments redis json config m) ≡ o
  unfolding unmarshal_assignments lookup
  lookup-unmarshal_assignments none i [] h = refl
  lookup-unmarshal_assignments (some g) i [] h = absurd h
  lookup-unmarshal_assignments o i ((k, payload) ∷ m) h = elim (Bool-cases (str_eq k i)) [
    | inl same ↦ found o same (rw same at h)
    | inr other ↦
        let rest = lookup-unmarshal_assignments o i m (rw other at h) in
        elim (Result-cases (json.unmarshal_groups payload)) [
          | inl (groups, e) ↦ rw (e, other) rest
          | inr (x, e) ↦ rw e rest
        ]
  ]
    where
      found :
          (o : Option (List Str))
          → str_eq k i ≡ true
          → Stands o (some payload)
          → lookup i (unmarshal_assignments redis json config ((k, payload) ∷ m)) ≡ o
      found none same h = absurd h
      found (some groups) same h = rw (h, same)
