-- ===== src/Collector/Partition/Latest.antt =====
-- `evaluatePartition`: what it reports and records for a partition with a committed offset.
use lag_radar.Base.{
  ℕ, ◌-◌, ◌^◌, ◌≤◌, ◌<◌, ◌≡◌, refl, ◌≢◌, false, List, [], ◌∷◌, ◌++◌, Option, ◌⊎◌, none, some, arith,
  ltb, Bool-cases, inl, inr, if◌then◌else◌, length, drop, last-append,
}
use lag_radar.Base.Int.{ℤ, pos, ◌≤ℤ◌, ◌-ℤ◌}
use lag_radar.Base.Word.{sub_i64, wrap}
use lag_radar.Base.Text.{Str, str_eq, str_eq_refl}
use lag_radar.Base.Float.{Float64}
use lag_radar.Base.Map.{lookup, lookup-insert}
use lag_radar.Base.Result.{ok, err, Result-cases}
use lag_radar.Collector.Types.{OffsetRecord, PartitionWindow, PartitionConsumerStatus, Config}
use lag_radar.Collector.Evaluator.{evaluate_partition_consumer}
use lag_radar.Collector.Window.{
  Windows, window_key, push_record, window_or_new, add_to_window, get_window_records,
}
use lag_radar.Collector.State.{TopicPartitionOffset, Error, Round, Setup, Collector}
use lag_radar.Collector.Partition.{lag_of, offset_record, evaluate_record, evaluate_partition}

-- The lag of a partition is what its offset is behind its high watermark, and 0 if it is not behind:
-- with both in the range of offsets the subtraction does not wrap.
pub lag_of_lem :
    (high offset : ℕ)
    → high < 2 ^ 63
    → offset < 2 ^ 63
    → lag_of (pos high) (pos offset) ≡ pos (high - offset)
unfolding lag_of sub_i64 wrap ◌-ℤ◌
lag_of_lem high offset h o = ground arith

-- The lag is never negative, whatever Kafka answers.
pub lag_of-nonneg : (high offset : ℤ) → pos 0 ≤ℤ lag_of high offset
unfolding lag_of
lag_of-nonneg high offset = ground arith

last_kept :
    (n : ℕ) (l : List OffsetRecord) (r : OffsetRecord)
    → 1 ≤ n
    → (before : List OffsetRecord) × ((if ltb n (length (l ++ r ∷ []))
          then drop 1 (l ++ r ∷ [])
          else l ++ r ∷ [])
        ≡ before ++ r ∷ [])
last_kept n [] r h = ([], ground arith)
last_kept n (x ∷ l) r h = elim (Bool-cases (ltb n (length (x ∷ l ++ r ∷ [])))) [
  | inl full ↦ (l, rw full)
  | inr room ↦ (x ∷ l, rw room)
]

-- A window that can hold a record ends with the one that was pushed.
push_record-last :
    (w : PartitionWindow) (r : OffsetRecord)
    → 1 ≤ w.window_size
    → (before : List OffsetRecord) × ((push_record w r).records ≡ before ++ r ∷ [])
unfolding push_record
push_record-last w r h = last_kept w.window_size w.records r h

module _ {F : Type 0} ⦃f : Float64 F⦄ (config : Config F) where
  -- The status of a window that ends with `r` carries the fields of `r`.
  evaluated_fields :
      (before : List OffsetRecord) (r : OffsetRecord) (g t : Str) (p : ℤ)
      → let s = evaluate_partition_consumer config (before ++ r ∷ []) g t p in
        (s.current_offset ≡ r.offset)
        × (s.high_watermark ≡ r.high_watermark)
        × (s.current_lag ≡ r.lag)
        × (s.last_update_time ≡ r.check_timestamp)
  unfolding evaluate_partition_consumer
  evaluated_fields [] r g t p = ground arith
  evaluated_fields (x ∷ before) r g t p = ground (arith, last-append x before r)

  -- After a record is added to a key, the key's window ends with it.
  get_window_records-last :
      (key : Str) (r : OffsetRecord) (windows : Windows)
      → ((w : PartitionWindow) → lookup key windows ≡ some w → 1 ≤ w.window_size)
      → 1 ≤ config.window_size
      → (before : List OffsetRecord) × (get_window_records key (add_to_window config key r windows)
          ≡ before ++ r ∷ [])
  unfolding get_window_records add_to_window
  get_window_records-last key r windows sized h =
      let w = window_or_new config (lookup key windows) in
      let (before, e) = push_record-last w r (holds (lookup key windows) sized) in
      (before, rw (lookup-insert key key (push_record w r) windows, str_eq_refl key) e)
    where
      holds :
          (o : Option PartitionWindow)
          → ((w : PartitionWindow) → o ≡ some w → 1 ≤ w.window_size)
          → 1 ≤ (window_or_new config o).window_size
      holds none s = h
      holds (some w) s = s w refl

  -- Every window has the size of the configuration.
  abbrev pub IsSized : Windows → Type 0
  IsSized windows =
      (key : Str) (w : PartitionWindow)
      → lookup key windows ≡ some w
      → w.window_size ≡ config.window_size

  window_size-window_or_new :
      (o : Option PartitionWindow)
      → ((w : PartitionWindow) → o ≡ some w → w.window_size ≡ config.window_size)
      → (window_or_new config o).window_size ≡ config.window_size
  window_size-window_or_new none s = refl
  window_size-window_or_new (some w) s = s w refl

  pub add_to_window-IsSized :
      (key : Str) (r : OffsetRecord) (windows : Windows)
      → IsSized windows
      → IsSized (add_to_window config key r windows)
  unfolding add_to_window push_record
  add_to_window-IsSized key r windows sized j w =
      let old = window_or_new config (lookup key windows) in
      rw (lookup-insert key j (push_record old r) windows) λ found.
        ground (arith, sized j w, window_size-window_or_new (lookup key windows) (sized key))

  add_to_window_frame :
      (key : Str) (r : OffsetRecord) (windows : Windows) (j : Str)
      → str_eq key j ≡ false
      → lookup j (add_to_window config key r windows) ≡ lookup j windows
  unfolding add_to_window
  add_to_window_frame key r windows j other =
      let w = window_or_new config (lookup key windows) in
      rw (lookup-insert key j (push_record w r) windows, other)

module _ {F H : Type 0} ⦃f : Float64 F⦄ (setup : Setup F H) (cluster : Str) (round : Round F)
    (group_id : Str) (tpo : TopicPartitionOffset) (c : Collector F H) where
  -- If Kafka gives no high watermark, or the group has no committed offset on the partition, nothing is
  -- recorded: the collector is left as it was.
  pub evaluate_partition_unrecorded :
      ((e : Error) × (round.get_high_watermark group_id tpo ≡ err e))
        ⊎ (tpo.offset ≡ setup.offset_invalid)
      → (evaluate_partition setup cluster round group_id tpo c).1 ≡ c
  unfolding evaluate_partition
  evaluate_partition_unrecorded (inl (e, failed)) = rw failed
  evaluate_partition_unrecorded (inr invalid) =
      ground (arith, Result-cases (round.get_high_watermark group_id tpo))

  -- Where the windows hold at least one record and have the configured size: for a committed offset the
  -- evaluation succeeds, and reports that offset, the high watermark, the lag between them and the
  -- time of the check; the window of another key stays, and the windows keep their size.
  pub evaluate_partition_reports :
      {high : ℤ} (other : Str)
      → 1 ≤ setup.config.window_size
      → IsSized setup.config c.windows
      → round.get_high_watermark group_id tpo ≡ ok high
      → tpo.offset ≢ setup.offset_invalid
      → str_eq (window_key group_id tpo.topic tpo.partition) other ≡ false
      → (s : PartitionConsumerStatus F) × (c' : Collector F H) × (evaluate_partition setup cluster
            round group_id tpo c
          ≡ (ok s, c'))
        × (s.current_offset ≡ tpo.offset)
        × (s.high_watermark ≡ high)
        × (s.current_lag ≡ lag_of high tpo.offset)
        × (s.last_update_time ≡ round.now group_id tpo)
        × IsSized setup.config c'.windows
        × (lookup other c'.windows ≡ lookup other c.windows)
  unfolding evaluate_partition evaluate_record
  evaluate_partition_reports {high} other room sized answer committed apart =
      let r = offset_record tpo high (round.now group_id tpo) in
      let key = window_key group_id tpo.topic tpo.partition in
      let (before, ends) =
        get_window_records-last setup.config key r c.windows
          (λ w found. rw (sized key w found) room) room in
      let fields = evaluated_fields setup.config before r group_id tpo.topic tpo.partition in
      let result = evaluate_record setup cluster round group_id tpo r c in
      (
        result.0,
        result.1,
        rw answer (ground arith),
        rw ends fields.0,
        rw ends fields.1,
        rw ends fields.2,
        rw ends fields.3,
        add_to_window-IsSized setup.config key r c.windows sized,
        add_to_window_frame setup.config key r c.windows other apart,
      )
