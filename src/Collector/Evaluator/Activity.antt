-- ===== src/Collector/Evaluator/Activity.antt =====
-- `isConsumerActive` and `timeSinceLastOffsetChange`: what they say of the records of a window.
use lag_radar.Base.{
  ◌≤◌, ◌≡◌, refl, ap, ◌∙◌, ◌↔◌, inl, inr, ◌≢◌, true, false, List, [], ◌∷◌, ◌++◌, reverse,
  reverse-append, reverse-reverse, arith, ltb, Bool-cases, length, length-append, All,
}
use mathlib.Core.List.{reverse_aux, reverse_aux-eq}
use lag_radar.Base.Int.{ℤ, pos}
use lag_radar.Base.Word.{eqb_ℤ}
use lag_radar.Base.Clock.{sub_time}
use lag_radar.Collector.Types.{OffsetRecord}
use lag_radar.Collector.Evaluator.Measures.{
  unique_offsets, recent, is_consumer_active, scan_back, time_since_last_offset_change,
}

-- Every record of the list shows the offset `o`.
abbrev pub SameOffset : ℤ → List OffsetRecord → Type 0
SameOffset o = All λ r. r.offset ≡ o

eqb_ℤ_iff : (a b : ℤ) → (eqb_ℤ a b ≡ true) ↔ (a ≡ b)
eqb_ℤ_iff a b = ground arith

unique_offsets-SameOffset :
    (o : ℤ) (rs : List OffsetRecord) → SameOffset o rs → unique_offsets (o ∷ []) rs ≡ o ∷ []
unfolding unique_offsets
unique_offsets-SameOffset o [] h = refl
unique_offsets-SameOffset o (r ∷ rs) h =
    ground (arith, eqb_ℤ_iff r.offset o, unique_offsets-SameOffset o rs h.1)

length-unique_offsets :
    (seen : List ℤ) (rs : List OffsetRecord) → length seen ≤ length (unique_offsets seen rs)
unfolding unique_offsets
length-unique_offsets seen [] = omega arith
length-unique_offsets seen (r ∷ rs) =
    ground (arith, length-unique_offsets seen rs, length-unique_offsets (r.offset ∷ seen) rs)

SameOffset-of_unique :
    (o : ℤ) (rs : List OffsetRecord) → length (unique_offsets (o ∷ []) rs) ≤ 1 → SameOffset o rs
unfolding unique_offsets
SameOffset-of_unique o [] h = tt
SameOffset-of_unique o (r ∷ rs) h = ground (
  arith,
  eqb_ℤ_iff r.offset o,
  SameOffset-of_unique o rs,
  length-unique_offsets (r.offset ∷ o ∷ []) rs,
)

one_offset_iff :
    (rs : List OffsetRecord) → (length (unique_offsets [] rs) ≤ 1) ↔ ((o : ℤ) × SameOffset o rs)
unfolding unique_offsets
one_offset_iff [] = (λ h. (pos 0, tt), λ h. omega arith)
one_offset_iff (r ∷ rs) = (
  λ h. (r.offset, (refl, SameOffset-of_unique r.offset rs h)),
  λ h. omega (arith, ap length (unique_offsets-SameOffset r.offset rs (rw h.1.0 h.1.1))),
)

-- A consumer counts as inactive exactly when the last five records of its window (all of them, if
-- there are fewer) show one offset.
pub is_consumer_active-eq-false_iff :
    (records : List OffsetRecord)
    → (is_consumer_active records ≡ false) ↔ ((o : ℤ) × SameOffset o (recent records))
unfolding is_consumer_active
is_consumer_active-eq-false_iff [] = (λ h. (pos 0, tt), λ h. refl)
is_consumer_active-eq-false_iff (r ∷ []) = (λ h. (r.offset, (refl, tt)), λ h. refl)
is_consumer_active-eq-false_iff (r ∷ s ∷ rest) =
    let i = one_offset_iff (recent (r ∷ s ∷ rest)) in
    (λ h. i.0 (ground arith), λ h. ground (arith, i.1 h))

-- The first record of a list, if there is one, does not show the offset `o`.
abbrev pub HeadDiffers : ℤ → List OffsetRecord → Type 0
HeadDiffers o [] = Unit
HeadDiffers o (r ∷ rs) = r.offset ≢ o

-- `records` ends with a stretch of records that show `o`, from `start` on, and no longer stretch
-- does.
pub record LastStretch (o : ℤ) (records : List OffsetRecord) : Type 0 where
  pub before : List OffsetRecord
  pub start : OffsetRecord
  pub after : List OffsetRecord
  pub split : records ≡ before ++ (start ∷ after)
  pub same : SameOffset o (start ∷ after)
  pub longest : HeadDiffers o (reverse before)

-- The loop, read from new to old: `newer ∷ older` is what is left, `done` what it has passed.
scan_back_lem :
    (latest newer : OffsetRecord) (older done : List OffsetRecord)
    → newer.offset ≡ latest.offset
    → SameOffset latest.offset done
    → (s : LastStretch latest.offset (reverse_aux older (newer ∷ done))) × (scan_back latest newer
          older
        ≡ sub_time latest.check_timestamp s.start.check_timestamp)
unfolding scan_back
scan_back_lem latest newer [] done e h = (
  record { before = []; start = newer; after = done; split = refl; same = (e, h); longest = tt },
  refl,
)
scan_back_lem latest newer (r ∷ older) done e h = elim (Bool-cases (eqb_ℤ r.offset latest.offset)) [
  | inl same ↦
      rw (same, scan_back)
        (scan_back_lem latest r older (newer ∷ done) ((eqb_ℤ_iff _ _).0 same) (e, h))
  | inr differs ↦
      rw (differs, scan_back)
        (
          record {
            before = reverse (r ∷ older);
            start = newer;
            after = done;
            split = reverse_aux-eq (r ∷ older) (newer ∷ done);
            same = (e, h);
            longest =
                rw (reverse-reverse (r ∷ older))
                  (λ eq. ground (arith, eqb_ℤ_iff r.offset latest.offset));
          },
          refl,
        )
]

-- Of a window that ends with the record `latest`, the time since the last move is the time from the
-- first record of the last stretch of records with `latest`'s offset up to `latest`.
pub time_since_last_offset_change_lem :
    (older : List OffsetRecord) (latest : OffsetRecord)
    → 1 ≤ length older
    → let records = older ++ latest ∷ [] in
      (s : LastStretch latest.offset records) × (time_since_last_offset_change records
        ≡ sub_time latest.check_timestamp s.start.check_timestamp)
unfolding time_since_last_offset_change
time_since_last_offset_change_lem older latest h =
    let enough : ltb (length (older ++ latest ∷ [])) 2 ≡ false =
      ground (arith, length-append older (latest ∷ [])) in
    let turned : reverse_aux (reverse older) (latest ∷ []) ≡ older ++ latest ∷ [] =
      reverse_aux-eq (reverse older) (latest ∷ [])
      ∙ ap (λ l. l ++ latest ∷ []) (reverse-reverse older) in
    rw (enough, reverse-append older (latest ∷ []))
      (rw turned at (scan_back_lem latest latest (reverse older) [] refl tt))
