-- ===== src/Collector/Evaluator/Status.antt =====
-- `EvaluatePartitionConsumer`: which status and which health a window of records is given.
use lag_radar.Base.{
  ◌≤◌, ◌<◌, ◌≡◌, refl, ◌↔◌, ◌⊎◌, inl, ◌≢◌, true, false, List, [], ◌∷◌, arith, length, last,
}
use lag_radar.Base.Int.{ℤ, pos, ltb_ℤ}
use lag_radar.Base.Text.{Str}
use lag_radar.Base.Float.{Float64}
use lag_radar.Collector.Types.{
  active, lagging, stalled, stopped, empty, unknown, no_status, increasing, no_trend, good,
  critical, no_health, OffsetRecord, PartitionConsumerStatus, Config,
}
use lag_radar.Collector.Evaluator.{evaluate_partition_consumer}
use lag_radar.Collector.Evaluator.Measures.{
  is_consumer_active, time_since_last_offset_change, calculate_consumption_rate,
  calculate_lag_trend,
}

module _ {F : Type 0} ⦃f : Float64 F⦄ (config : Config F) (first : OffsetRecord)
    (rest : List OffsetRecord) (group_id topic : Str) (partition : ℤ) where
  abbrev pub evaluated : PartitionConsumerStatus F
  evaluated = evaluate_partition_consumer config (first ∷ rest) group_id topic partition

  abbrev pub IsEnough : Type 0
  IsEnough = config.min_window_size ≤ length (first ∷ rest)

  -- A window that is not empty is given the status `stopped` exactly when it has enough records, its
  -- consumer is not active, its latest lag is not 0 and the time since the last move exceeds the
  -- timeout.
  pub status-stopped_iff : (evaluated.status ≡ stopped) ↔ (
      IsEnough
      × (is_consumer_active (first ∷ rest) ≡ false)
      × ((last first rest).lag ≢ pos 0)
      × (ltb_ℤ config.inactivity_timeout (time_since_last_offset_change (first ∷ rest)) ≡ true))
  unfolding evaluate_partition_consumer
  status-stopped_iff = (λ h. ground arith, λ h. ground arith)

  -- It is given the status `stalled` exactly when it has enough records and either its consumer is not
  -- active, lags, and has moved within the timeout, or it is active and its consumption rate is below
  -- the threshold.
  pub status-stalled_iff : (evaluated.status ≡ stalled) ↔ (
      IsEnough
      × (((is_consumer_active (first ∷ rest) ≡ false)
            × ((last first rest).lag ≢ pos 0)
            × (ltb_ℤ config.inactivity_timeout (time_since_last_offset_change (first ∷ rest))
                ≡ false))
          ⊎ ((is_consumer_active (first ∷ rest) ≡ true)
              × (f.lt (calculate_consumption_rate (first ∷ rest)) config.stalled_consumption_rate
                  ≡ true))))
  unfolding evaluate_partition_consumer
  status-stalled_iff = (λ h. ground arith, λ h. ground arith)

  -- It is given the health `critical` exactly when its status is `stopped` or `stalled`, or its status
  -- is `lagging` and its lag is increasing.
  pub health-critical_iff : (evaluated.health ≡ critical) ↔ (
      (evaluated.status ≡ stopped)
      ⊎ ((evaluated.status ≡ stalled)
          ⊎ ((evaluated.status ≡ lagging) × (evaluated.lag_trend ≡ increasing))))
  unfolding evaluate_partition_consumer
  health-critical_iff = (λ h. ground arith, λ h. ground arith)

  -- It is given the health `good` exactly when its status is `active` or `empty` and it is not so that
  -- the lag is increasing and above 1000.
  pub health-good_iff : (evaluated.health ≡ good) ↔ (
      ((evaluated.status ≡ active) ⊎ (evaluated.status ≡ empty))
      × ¬ ((evaluated.lag_trend ≡ increasing) × (ltb_ℤ (pos 1000) (last first rest).lag ≡ true)))
  unfolding evaluate_partition_consumer
  health-good_iff = (λ h. ground arith, λ h. ground arith)

-- Every window, the empty one too, is given a status, a trend and a health; and the status `unknown`
-- exactly when it is empty or has too few records.
pub evaluate_total :
    {F : Type 0} ⦃f : Float64 F⦄ (config : Config F) (records : List OffsetRecord)
    (group_id topic : Str) (partition : ℤ)
    → let s = evaluate_partition_consumer config records group_id topic partition in
      (s.status ≢ no_status)
      × (s.lag_trend ≢ no_trend)
      × (s.health ≢ no_health)
      × ((s.status ≡ unknown) ↔ ((length records ≡ 0) ⊎ (length records < config.min_window_size)))
unfolding evaluate_partition_consumer calculate_lag_trend
evaluate_total config [] group_id topic partition =
    (λ e. cc, λ e. cc, λ e. cc, (λ h. inl refl, λ h. refl))
evaluate_total config (first ∷ rest) group_id topic partition = (
  λ e. ground arith,
  λ e. ground arith,
  λ e. ground arith,
  (λ h. ground arith, λ h. ground arith),
)
