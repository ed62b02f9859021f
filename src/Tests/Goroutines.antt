-- ===== src/Tests/Goroutines.antt =====
-- Two goroutines whose steps alternate, and whose results arrive in the other order.
use lag_radar.Base.{ℕ, ◌≡◌, refl, inl, inr, false, [], ◌∷◌, some, none, arith, eq-false_of_ne}
use mathlib.Core.Path.{subst}
use lag_radar.Base.Int.{ℤ, pos}
use lag_radar.Base.Text.{Str, str_eq, str_eq_iff}
use lag_radar.Base.Clock.{second}
use lag_radar.Base.Map.{lookup}
use lag_radar.Base.Result.{ok, ok_injective}
use lag_radar.Collector.Types.{GroupStatus}
use lag_radar.Collector.State.{Setup, Round, Collector}
use lag_radar.Collector.Group.{collect_group_metrics, new_group, add_partition}
use lag_radar.Collector.Cycle.{counted, collect_metrics, returned, store_results, get_group_status}
use lag_radar.Collector.Cycle.Results.{Results, Listed}
use lag_radar.Collector.Cycle.Goroutines.{
  IsFinished, next_is, has_added, status_now, recorded, reported, Threads, adds, evaluates,
  with_thread, Runs, at_first, moves, begin, sent,
}
use lag_radar.Collector.Cycle.Goroutines.Alone.{AreTopicPartitions}
use lag_radar.Collector.Cycle.Goroutines.Interleaved.{KafkaNames}
use lag_radar.Collector.Cycle.Goroutines.Statuses.{AllSent, collect_metrics_any_order}
use lag_radar.Collector.Cycle.Goroutines.Fresh.{collect_metrics_stores_status}
use lag_radar.Collector.Cycle.Goroutines.Semaphore.{Spawning}
use lag_radar.Tests.{
  small, whole, billing, lost, local, first_partition, groups, offsets, round, setup, fresh,
}

-- Kafka gives the offsets of both groups.
abbrev both : Round ℤ
both = record round { get_consumer_group_offsets = λ g. ok offsets }

abbrev begun : Collector ℤ ℕ
begun = counted setup local both [] groups fresh

abbrev blank : Str → GroupStatus ℤ
blank g = new_group g 0 (pos second) 1

abbrev one_added : Collector ℤ ℕ
one_added = recorded setup local both billing first_partition (pos 9) begun

abbrev both_added : Collector ℤ ℕ
both_added = recorded setup local both lost first_partition (pos 9) one_added

abbrev one_reported : Collector ℤ ℕ
one_reported = reported setup local both lost first_partition both_added

abbrev both_reported : Collector ℤ ℕ
both_reported = reported setup local both billing first_partition one_reported

abbrev after_adding : Threads ℤ
after_adding =
    with_thread lost (has_added first_partition [] (blank lost)) (
      with_thread billing (has_added first_partition [] (blank billing))
        (begin setup local both []))

abbrev of_lost : GroupStatus ℤ
of_lost = add_partition (status_now setup local both lost first_partition both_added) (blank lost)

abbrev of_billing : GroupStatus ℤ
of_billing =
    add_partition (status_now setup local both billing first_partition one_reported) (blank billing)

abbrev ended : Threads ℤ
ended =
    with_thread billing (next_is [] of_billing) (with_thread lost (next_is [] of_lost) after_adding)

alternate : Runs setup local both begun (begin setup local both []) both_reported ended
unfolding begin str_eq lookup
alternate =
    moves billing
      (moves lost (moves lost (moves billing at_first (adds refl refl)) (adds refl refl)) evaluates)
      evaluates

abbrev results : Results setup local both
results =
    (lost, sent setup local both lost (ended lost))
    ∷ (billing, sent setup local both billing (ended billing))
    ∷ []

are_names : KafkaNames setup local both
are_names g os there = subst AreTopicPartitions (ok_injective there) (ground arith)

all_sent : AllSent setup local both groups results ended
unfolding lookup str_eq
all_sent = ((refl, (refl, tt)), arrived, unlisted)
  where
    arrived :
        (g : Str)
        → Listed g groups
        → IsFinished setup local both (ended g)
          × (lookup g results ≡ some (sent setup local both g (ended g)))
    arrived g (inl e) =
        subst
          (λ i.
            IsFinished setup local both (ended i)
            × (lookup i results ≡ some (sent setup local both i (ended i))))
          e (tt, refl)
    arrived g (inr (inl e)) =
        subst
          (λ i.
            IsFinished setup local both (ended i)
            × (lookup i results ≡ some (sent setup local both i (ended i))))
          e (tt, refl)
    arrived g (inr (inr never)) = absurd never

    unlisted : (g : Str) → ¬ Listed g groups → lookup g results ≡ none
    unlisted g never =
        let not_lost : str_eq lost g ≡ false =
          eq-false_of_ne (str_eq lost g) (λ e. never (inr (inl ((str_eq_iff lost g).0 e)))) in
        let not_billing : str_eq billing g ≡ false =
          eq-false_of_ne (str_eq billing g) (λ e. never (inl ((str_eq_iff billing g).0 e))) in
        rw (not_lost, not_billing) refl

collect_metrics_any_order_example :
    (after : Collector ℤ ℕ) × (collect_metrics setup local both fresh ≡ returned (none, after))
    × (get_group_status billing (store_results setup local both results both_reported)
        ≡ get_group_status billing after)
collect_metrics_any_order_example =
    collect_metrics_any_order setup local both [] groups billing fresh results are_names
      ((λ l. ground arith), ((λ l. l), tt)) (ground arith) refl refl alternate all_sent

collect_metrics_stores_status_example :
    (after : Collector ℤ ℕ) × (s : GroupStatus ℤ) × (collect_metrics setup local both fresh
      ≡ returned (none, after))
    × (get_group_status lost after ≡ some s)
    × ((collect_group_metrics setup local both lost 0 fresh).0 ≡ ok s)
unfolding lookup
collect_metrics_stores_status_example =
    collect_metrics_stores_status setup local both fresh lost are_names
      ((λ l. ground arith), ((λ l. l), tt)) refl (ground arith) (ground arith) refl

abbrev one_started : Spawning
one_started = record { waiting = lost ∷ []; held = 1 }

-- The setup of a configuration that leaves `max_concurrency` out.
abbrev unset : Setup ℤ ℕ
unset = record setup { config = record small { max_concurrency = 0 } }
