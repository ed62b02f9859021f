-- ===== src/Collector/Group/Filed.antt =====
-- `collectGroupMetricsWithCluster`: what adding the statuses of partitions to a group comes to.
use lag_radar.Base.{
  ℕ, ◌+◌, ◌≤◌, ◌≡◌, refl, ◌≢◌, List, [], ◌∷◌, ◌++◌, arith, length, length-append, append-nil,
  append_assoc, All, Bool, true, false, sym, ap, ◌∙◌, if◌then◌else◌,
}
use lag_radar.Base.Int.{ℤ}
use lag_radar.Base.Word.{add_i64}
use lag_radar.Base.Result.{Result, ok, err}
use lag_radar.Collector.Types.{
  ConsumerStatus, active, stopped, stalled, empty, good, warning, critical, no_health,
  ConsumerHealth, PartitionConsumerStatus, GroupStatus,
}
use lag_radar.Collector.State.{Error}
use lag_radar.Collector.Group.{add_partition}

abbrev pub one_if_critical : ConsumerHealth → ℕ
one_if_critical critical = 1
one_if_critical _ = 0

abbrev pub one_if_warning : ConsumerHealth → ℕ
one_if_warning warning = 1
one_if_warning _ = 0

abbrev pub is_critical : ConsumerHealth → Bool
is_critical critical = true
is_critical _ = false

abbrev pub is_warning : ConsumerHealth → Bool
is_warning warning = true
is_warning _ = false

abbrev pub is_good : ConsumerHealth → Bool
is_good good = true
is_good _ = false

abbrev pub is_active_or_empty : ConsumerStatus → Bool
is_active_or_empty active = true
is_active_or_empty empty = true
is_active_or_empty _ = false

abbrev pub is_stopped : ConsumerStatus → Bool
is_stopped stopped = true
is_stopped _ = false

abbrev pub is_stalled : ConsumerStatus → Bool
is_stalled stalled = true
is_stalled _ = false

module _ {F : Type 0} where
  -- The statuses that pass a test, in their order.
  unfoldable pub passing :
      (PartitionConsumerStatus F → Bool)
      → List (PartitionConsumerStatus F)
      → List (PartitionConsumerStatus F)
  passing test [] = []
  passing test (s ∷ ss) = (if test s then s ∷ [] else []) ++ passing test ss

  -- The group holds, after what it had, the statuses of the list by their health, in their order, and
  -- has counted them by their state.
  unfoldable pub IsFiled : GroupStatus F → List (PartitionConsumerStatus F) → GroupStatus F → Type 0
  IsFiled g ss g' =
      (g'.critical_partitions ≡ g.critical_partitions ++ passing (λ s. is_critical s.health) ss)
      × (g'.warning_partitions ≡ g.warning_partitions ++ passing (λ s. is_warning s.health) ss)
      × (g'.healthy_partitions ≡ g.healthy_partitions ++ passing (λ s. is_good s.health) ss)
      × (g'.active_partitions
          ≡ g.active_partitions + length (passing (λ s. is_active_or_empty s.status) ss))
      × (g'.stopped_partitions
          ≡ g.stopped_partitions + length (passing (λ s. is_stopped s.status) ss))
      × (g'.stalled_partitions
          ≡ g.stalled_partitions + length (passing (λ s. is_stalled s.status) ss))

  -- The wrapped sum of the lags, in the order of the statuses.
  unfoldable pub lag_sum : ℤ → List (PartitionConsumerStatus F) → ℤ
  lag_sum total [] = total
  lag_sum total (s ∷ ss) = lag_sum (add_i64 total s.current_lag) ss

  abbrev pub keep_ok :
      Result Error (PartitionConsumerStatus F)
      → List (PartitionConsumerStatus F)
      → List (PartitionConsumerStatus F)
  keep_ok (ok s) rest = s ∷ rest
  keep_ok (err e) rest = rest

  unfoldable pub add_all : List (PartitionConsumerStatus F) → GroupStatus F → GroupStatus F
  add_all [] g = g
  add_all (s ∷ ss) g = add_all ss (add_partition s g)

  -- Every status has a health.
  abbrev pub HasHealth : List (PartitionConsumerStatus F) → Type 0
  HasHealth = All λ s. s.health ≢ no_health

  abbrev pub filed : GroupStatus F → ℕ
  filed g = length g.critical_partitions + length g.warning_partitions + length g.healthy_partitions

  abbrev pub counted : GroupStatus F → ℕ
  counted g = g.active_partitions + g.stopped_partitions + g.stalled_partitions

  -- How many of the statuses are critical, and how many are a warning.
  unfoldable pub criticals : List (PartitionConsumerStatus F) → ℕ
  criticals [] = 0
  criticals (s ∷ ss) = one_if_critical s.health + criticals ss

  unfoldable pub warnings : List (PartitionConsumerStatus F) → ℕ
  warnings [] = 0
  warnings (s ∷ ss) = one_if_warning s.health + warnings ss

  add_partition_counts :
      (s : PartitionConsumerStatus F) (g : GroupStatus F)
      → s.health ≢ no_health
      → let g' = add_partition s g in
        (filed g' ≡ filed g + 1)
        × (counted g' ≤ counted g + 1)
        × (g'.total_lag ≡ add_i64 g.total_lag s.current_lag)
        × (g'.partition_count ≡ g.partition_count)
        × (length g'.critical_partitions ≡ length g.critical_partitions + one_if_critical s.health)
        × (length g'.warning_partitions ≡ length g.warning_partitions + one_if_warning s.health)
  unfolding add_partition
  add_partition_counts s g h = ground (
    arith,
    length-append g.critical_partitions (s ∷ []),
    length-append g.warning_partitions (s ∷ []),
    length-append g.healthy_partitions (s ∷ []),
  )

  add_partition-IsFiled :
      (s : PartitionConsumerStatus F) (g : GroupStatus F) → IsFiled g (s ∷ []) (add_partition s g)
  unfolding add_partition IsFiled passing
  add_partition-IsFiled s g = (
    ground (arith, append-nil g.critical_partitions),
    ground (arith, append-nil g.warning_partitions),
    ground (arith, append-nil g.healthy_partitions),
    ground arith,
    ground arith,
    ground arith,
  )

  passing-cons :
      (test : PartitionConsumerStatus F → Bool) (s : PartitionConsumerStatus F)
      (ss : List (PartitionConsumerStatus F))
      → passing test (s ∷ ss) ≡ passing test (s ∷ []) ++ passing test ss
  unfolding passing
  passing-cons test s ss = ap (λ l. l ++ passing test ss) (sym (append-nil _))

  passed_on :
      (test : PartitionConsumerStatus F → Bool) (s : PartitionConsumerStatus F)
      (ss before after final : List (PartitionConsumerStatus F))
      → after ≡ before ++ passing test (s ∷ [])
      → final ≡ after ++ passing test ss
      → final ≡ before ++ passing test (s ∷ ss)
  passed_on test s ss before after final first rest =
      rest
      ∙ ap (λ l. l ++ passing test ss) first
      ∙ append_assoc before (passing test (s ∷ [])) (passing test ss)
      ∙ ap (λ l. before ++ l) (sym (passing-cons test s ss))

  counted_on :
      (test : PartitionConsumerStatus F → Bool) (s : PartitionConsumerStatus F)
      (ss : List (PartitionConsumerStatus F)) (before after final : ℕ)
      → after ≡ before + length (passing test (s ∷ []))
      → final ≡ after + length (passing test ss)
      → final ≡ before + length (passing test (s ∷ ss))
  counted_on test s ss before after final first rest =
      let split =
        ap length (passing-cons test s ss)
        ∙ length-append (passing test (s ∷ [])) (passing test ss) in
      omega (arith, split)

  pub add_all-IsFiled :
      (ss : List (PartitionConsumerStatus F)) (g : GroupStatus F) → IsFiled g ss (add_all ss g)
  unfolding add_all IsFiled
  add_all-IsFiled [] g =
      unfold passing in
      (
        sym (append-nil g.critical_partitions),
        sym (append-nil g.warning_partitions),
        sym (append-nil g.healthy_partitions),
        omega arith,
        omega arith,
        omega arith,
      )
  add_all-IsFiled (s ∷ ss) g =
      let (c, w, h, a, o, t) = add_partition-IsFiled s g in
      let (cs, ws, hs, acts, os, ts) = add_all-IsFiled ss (add_partition s g) in
      (
        passed_on _ s ss _ _ _ c cs,
        passed_on _ s ss _ _ _ w ws,
        passed_on _ s ss _ _ _ h hs,
        counted_on _ s ss _ _ _ a acts,
        counted_on _ s ss _ _ _ o os,
        counted_on _ s ss _ _ _ t ts,
      )

  pub add_all-named :
      (ss : List (PartitionConsumerStatus F)) (g : GroupStatus F)
      → ((add_all ss g).group_id ≡ g.group_id) × ((add_all ss g).member_count ≡ g.member_count)
  unfolding add_all add_partition
  add_all-named [] g = (refl, refl)
  add_all-named (s ∷ ss) g = ground (arith, add_all-named ss (add_partition s g))

  pub add_all_counts :
      (ss : List (PartitionConsumerStatus F)) (g : GroupStatus F)
      → HasHealth ss
      → let g' = add_all ss g in
        (filed g' ≡ filed g + length ss)
        × (counted g' ≤ counted g + length ss)
        × (g'.total_lag ≡ lag_sum g.total_lag ss)
        × (g'.partition_count ≡ g.partition_count)
        × (length g'.critical_partitions ≡ length g.critical_partitions + criticals ss)
        × (length g'.warning_partitions ≡ length g.warning_partitions + warnings ss)
  unfolding add_all lag_sum criticals warnings
  add_all_counts [] g h = ground arith
  add_all_counts (s ∷ ss) g h =
      ground (arith, add_partition_counts s g h.0, add_all_counts ss (add_partition s g) h.1)
