-- ===== src/Collector/Window/Sliding.antt =====
-- The windows as a view of the history: the last records of each key.
use lag_radar.Base.{
  ℕ, suc, ◌+◌, ◌-◌, ◌≡◌, refl, sym, ap, ◌∙◌, inl, inr, List, [], ◌∷◌, ◌++◌, Option, none, some,
  arith, ltb, Bool-cases, if◌then◌else◌, length, drop, length-append, length-drop, drop-append,
  drop_one-drop, drop_of_length-le, append-nil, append_assoc,
}
use lag_radar.Base.Text.{Str, str_eq, str_eq_iff}
use lag_radar.Base.Map.{lookup, lookup-insert}
use lag_radar.Collector.Types.{OffsetRecord, PartitionWindow, Config}
use lag_radar.Collector.Window.{
  Windows, push_record, records_of, window_or_new, add_to_window, get_window_records,
}

-- The last `n` records of a list.
abbrev pub latest : ℕ → List OffsetRecord → List OffsetRecord
latest n rs = drop (length rs - n) rs

pushed_records :
    (n : ℕ) (rs : List OffsetRecord) (r : OffsetRecord)
    → (if ltb n (length (latest n rs ++ r ∷ []))
        then drop 1 (latest n rs ++ r ∷ [])
        else latest n rs ++ r ∷ [])
      ≡ latest n (rs ++ r ∷ [])
pushed_records n rs r =
    let grown : length (rs ++ r ∷ []) ≡ length rs + 1 = length-append rs (r ∷ []) in
    let shown : length (latest n rs ++ r ∷ []) ≡ length rs - (length rs - n) + 1 =
      omega (arith, length-append (latest n rs) (r ∷ []), length-drop (length rs - n) rs) in
    let joined : latest n rs ++ r ∷ [] ≡ drop (length rs - n) (rs ++ r ∷ []) =
      sym (drop-append (length rs - n) rs (r ∷ []) (omega arith)) in
    elim (Bool-cases (ltb n (length (latest n rs ++ r ∷ [])))) [
      | inl full ↦ rw full (
          ap (drop 1) joined
          ∙ drop_one-drop (length rs - n) (rs ++ r ∷ [])
          ∙ ap (λ k. drop k (rs ++ r ∷ [])) {x = suc (length rs - n)} (ground arith))
      | inr room ↦
          rw room (joined ∙ ap (λ k. drop k (rs ++ r ∷ [])) {x = length rs - n} (ground arith))
    ]

push_latest :
    (n : ℕ) (rs : List OffsetRecord) (r : OffsetRecord)
    → push_record (record { records = latest n rs; window_size = n }) r
      ≡ record { records = latest n (rs ++ r ∷ []); window_size = n }
unfolding push_record
push_latest n rs r = ap (λ l. record { records = l; window_size = n }) (pushed_records n rs r)

-- A log of the calls of `addToWindow`, oldest first.
abbrev pub Log : Type 0
Log = List (Str × OffsetRecord)

-- The records that a log adds to a key.
unfoldable pub history : Str → Log → List OffsetRecord
history key [] = []
history key ((k, r) ∷ log) = let rest = history key log in if str_eq k key then r ∷ rest else rest

pub history-append :
    (key : Str) (past log : Log) → history key (past ++ log) ≡ history key past ++ history key log
unfolding history
history-append key [] log = refl
history-append key ((k, r) ∷ past) log = ground (arith, history-append key past log)

module _ {F : Type 0} (config : Config F) where
  unfoldable pub add_all : Windows → Log → Windows
  add_all windows [] = windows
  add_all windows ((key, r) ∷ log) = add_all (add_to_window config key r windows) log

  abbrev view : List OffsetRecord → PartitionWindow
  view rs = record { records = latest config.window_size rs; window_size = config.window_size }

  -- Each window shows the last records that were added to its key.
  abbrev pub Shows : Windows → Log → Type 0
  Shows windows past =
      (key : Str) → window_or_new config (lookup key windows) ≡ view (history key past)

  add_to_window-Shows :
      (windows : Windows) (past : Log) (key : Str) (r : OffsetRecord)
      → Shows windows past
      → Shows (add_to_window config key r windows) (past ++ (key, r) ∷ [])
  unfolding add_to_window history
  add_to_window-Shows windows past key r shows k = elim (Bool-cases (str_eq key k)) [
    | inl here ↦
        rw
          (
            lookup-insert key k (push_record (window_or_new config (lookup key windows)) r) windows,
            here,
            shows key,
            push_latest config.window_size (history key past) r,
          )
          (ap view (ground (arith, history-append k past ((key, r) ∷ []), str_eq_iff key k)))
    | inr there ↦
        rw
          (
            lookup-insert key k (push_record (window_or_new config (lookup key windows)) r) windows,
            there,
          )
          (shows k
            ∙ ap view (
                ground (arith, history-append k past ((key, r) ∷ []), append-nil (history k past))))
  ]

  add_all-Shows :
      (windows : Windows) (past log : Log)
      → Shows windows past
      → Shows (add_all windows log) (past ++ log)
  unfolding add_all
  add_all-Shows windows past [] shows = rw (append-nil past) shows
  add_all-Shows windows past ((key, r) ∷ log) shows =
      rw (append_assoc past ((key, r) ∷ []) log) at (
        add_all-Shows (add_to_window config key r windows) (past ++ (key, r) ∷ []) log
          (add_to_window-Shows windows past key r shows))

  nothing-Shows : Shows [] []
  unfolding lookup history
  nothing-Shows key = ap view_of (sym (drop_of_length-le (0 - config.window_size) [] (omega arith)))
    where
      view_of : List OffsetRecord → PartitionWindow
      view_of rs = record { records = rs; window_size = config.window_size }

  records-window_or_new :
      (o : Option PartitionWindow) → records_of o ≡ (window_or_new config o).records
  records-window_or_new none = refl
  records-window_or_new (some w) = refl

  -- After any log of calls the window of a key holds the last `window_size` records that were added to
  -- that key, in their order, whatever was added to the others.
  pub get_window_records-add_all :
      (log : Log) (key : Str)
      → get_window_records key (add_all [] log) ≡ latest config.window_size (history key log)
  unfolding get_window_records
  get_window_records-add_all log key =
      records-window_or_new (lookup key (add_all [] log))
      ∙ ap (λ w. w.records) (add_all-Shows [] [] log nothing-Shows key)
