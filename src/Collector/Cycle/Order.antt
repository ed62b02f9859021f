-- ===== src/Collector/Cycle/Order.antt =====
-- The results of the goroutines, which arrive in any order.
use lag_radar.Base.{◌≡◌, refl, sym, ap, ◌∙◌, inl, inr, [], ◌∷◌, Option, none, some, Bool-cases}
use lag_radar.Base.Text.{Str, str_eq, str_eq_iff}
use lag_radar.Base.Float.{Float64}
use lag_radar.Base.Map.{lookup, Distinct}
use lag_radar.Base.Result.{Result, ok, err}
use lag_radar.Collector.Types.{GroupStatus}
use lag_radar.Collector.State.{Error, Round, Setup, Collector}
use lag_radar.Collector.Cycle.{store_results, get_group_status}
use lag_radar.Collector.Cycle.Results.{Results, status_after, lookup-store_results}

module _ {F H : Type 0} ⦃f : Float64 F⦄ (setup : Setup F H) (cluster : Str) (round : Round F) where
  -- The status after the one result of a group.
  abbrev pub chosen :
      Option (Result Error (GroupStatus F)) → Option (GroupStatus F) → Option (GroupStatus F)
  chosen none before = before
  chosen (some (err e)) before = before
  chosen (some (ok s)) before = some s

  status_after-Distinct :
      (g : Str) (results : Results setup cluster round) (before : Option (GroupStatus F))
      → Distinct results
      → status_after setup cluster round g results before ≡ chosen (lookup g results) before
  unfolding status_after lookup
  status_after-Distinct g [] before d = refl
  status_after-Distinct g ((h, ok s) ∷ results) before d = elim (Bool-cases (str_eq h g)) [
    | inl this ↦
        let gone : lookup g results ≡ none =
          ap (λ j. lookup j results) (sym ((str_eq_iff h g).0 this)) ∙ d.0 in
        rw this (status_after-Distinct g results (some s) d.1 ∙ rw gone refl)
    | inr that ↦ rw that (status_after-Distinct g results before d.1)
  ]
  status_after-Distinct g ((h, err e) ∷ results) before d = elim (Bool-cases (str_eq h g)) [
    | inl this ↦
        let gone : lookup g results ≡ none =
          ap (λ j. lookup j results) (sym ((str_eq_iff h g).0 this)) ∙ d.0 in
        rw this (status_after-Distinct g results before d.1 ∙ rw gone refl)
    | inr that ↦ rw that (status_after-Distinct g results before d.1)
  ]

  -- Two orders in which the results of a collection may arrive, with one result for each group, leave
  -- the same statuses: a group has its new status if its result is one, and else the status it had.
  pub store_results_any_order :
      (g : Str) (results others : Results setup cluster round) (c : Collector F H)
      → Distinct results
      → Distinct others
      → ((h : Str) → lookup h results ≡ lookup h others)
      → (get_group_status g (store_results setup cluster round results c)
          ≡ get_group_status g (store_results setup cluster round others c))
        × (get_group_status g (store_results setup cluster round results c)
            ≡ chosen (lookup g results) (get_group_status g c))
  unfolding get_group_status
  store_results_any_order g results others c d e same =
      let before = lookup g c.status_store in
      let left =
        lookup-store_results setup cluster round g results c
        ∙ status_after-Distinct g results before d in
      let right =
        lookup-store_results setup cluster round g others c
        ∙ status_after-Distinct g others before e in
      (left ∙ ap (λ r. chosen r before) (same g) ∙ sym right, left)
