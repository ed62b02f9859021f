-- ===== src/Collector/Window/Schedules.antt =====
-- The goroutines of the groups on the shared windows: the calls of `addToWindow`, which hold the lock
-- of the windows, in any order that keeps the order of each goroutine.
use lag_radar.Base.{
  ◌≡◌, refl, sym, ap, ◌∙◌, ◌⊎◌, inl, inr, List, [], ◌∷◌, ◌++◌, arith, All, Bool-cases,
}
use lag_radar.Base.Text.{Str, str_eq}
use lag_radar.Collector.Types.{OffsetRecord, Config}
use lag_radar.Collector.Window.{get_window_records}
use lag_radar.Collector.Window.Sliding.{
  Log, latest, history, history-append, add_all, get_window_records-add_all,
}

-- One goroutine makes its next call.
pub data Picks (call : Str × OffsetRecord) : List Log → List Log → Type 0 where
  this_one :
      (calls : Log) (others : List Log) → Picks call ((call ∷ calls) ∷ others) (calls ∷ others)
  later_one :
      (calls : Log) {others rest : List Log}
      → Picks call others rest
      → Picks call (calls ∷ others) (calls ∷ rest)

-- The calls of the goroutines as they are made, until none is left.
pub data Schedule : List Log → Log → Type 0 where
  all_done : {goroutines : List Log} → All (λ calls. calls ≡ []) goroutines → Schedule goroutines []
  then_call :
      {goroutines rest : List Log} {call : Str × OffsetRecord} {calls : Log}
      → Picks call goroutines rest
      → Schedule rest calls
      → Schedule goroutines (call ∷ calls)

-- The goroutines one after the other.
unfoldable pub in_turn : List Log → Log
in_turn [] = []
in_turn (calls ∷ others) = calls ++ in_turn others

-- At most one goroutine adds to the window of the key.
abbrev pub IsOwned : Str → List Log → Type 0
IsOwned key [] = Unit
IsOwned key (calls ∷ others) =
    ((history key calls ≡ []) × IsOwned key others) ⊎ All (λ log. history key log ≡ []) others

module _ (key : Str) where
  abbrev Silent : List Log → Type 0
  Silent = All λ log. history key log ≡ []

  history-cons :
      (call : Str × OffsetRecord) (calls : Log)
      → history key (call ∷ calls) ≡ history key (call ∷ []) ++ history key calls
  history-cons call calls = history-append key (call ∷ []) calls

  -- Of a call and calls that add nothing, neither adds anything.
  history-cons-nil :
      (call : Str × OffsetRecord) (calls : Log)
      → history key (call ∷ calls) ≡ []
      → (history key (call ∷ []) ≡ []) × (history key calls ≡ [])
  unfolding history
  history-cons-nil (k, r) calls h = elim (Bool-cases (str_eq k key)) [
    | inl here ↦ absurd (ground arith)
    | inr there ↦ rw there (refl, rw there at h)
  ]

  in_turn-Silent : (logs : List Log) → Silent logs → history key (in_turn logs) ≡ []
  unfolding in_turn history
  in_turn-Silent [] s = refl
  in_turn-Silent (calls ∷ logs) s =
      history-append key calls (in_turn logs) ∙ rw (s.0, in_turn-Silent logs s.1) refl

  Picks-Silent :
      {call : Str × OffsetRecord} {logs rest : List Log}
      → Picks call logs rest
      → Silent logs
      → (history key (call ∷ []) ≡ []) × Silent rest
  Picks-Silent {call} (this_one calls others) s =
      let (none_here, none_left) = history-cons-nil call calls s.0 in (none_here, (none_left, s.1))
  Picks-Silent (later_one calls picks) s =
      let (none_here, rest) = Picks-Silent picks s.1 in (none_here, (s.0, rest))

  Picks-IsOwned :
      {call : Str × OffsetRecord} {logs rest : List Log}
      → Picks call logs rest
      → IsOwned key logs
      → IsOwned key rest
        × (history key (in_turn logs) ≡ history key (call ∷ []) ++ history key (in_turn rest))
  unfolding in_turn
  Picks-IsOwned {call} (this_one calls others) (inl (silent, owned)) = (
    inl ((history-cons-nil call calls silent).1, owned),
    history-cons call (calls ++ in_turn others),
  )
  Picks-IsOwned {call} (this_one calls others) (inr silent) =
      (inr silent, history-cons call (calls ++ in_turn others))
  Picks-IsOwned {call} (later_one calls {others} {rest} picks) (inl (silent, owned)) =
      let (left, e) = Picks-IsOwned picks owned in
      (
        inl (silent, left),
        rw
            (
              history-append key calls (in_turn others),
              history-append key calls (in_turn rest),
              silent,
            )
            e,
      )
  Picks-IsOwned {call} (later_one calls {others} {rest} picks) (inr silent) =
      let (none_here, left) = Picks-Silent picks silent in
      (
        inr left,
        rw
            (
              history-append key calls (in_turn others),
              history-append key calls (in_turn rest),
              in_turn-Silent others silent,
              in_turn-Silent rest left,
              none_here,
            )
            refl,
      )

  in_turn-done : (logs : List Log) → All (λ calls. calls ≡ []) logs → in_turn logs ≡ []
  unfolding in_turn
  in_turn-done [] h = refl
  in_turn-done (calls ∷ logs) h = rw (h.0, in_turn-done logs h.1) refl

  history-Schedule :
      {logs : List Log} {calls : Log}
      → Schedule logs calls
      → IsOwned key logs
      → history key calls ≡ history key (in_turn logs)
  history-Schedule {logs} (all_done h) owned = ap (history key) (sym (in_turn-done logs h))
  history-Schedule (then_call {call} {calls} picks schedule) owned =
      let (left, e) = Picks-IsOwned picks owned in
      history-cons call calls
      ∙ ap (λ h. history key (call ∷ []) ++ h) (history-Schedule schedule left)
      ∙ sym e

-- Windows that are made by past calls, and then by the calls of goroutines in any order that keeps the
-- order of each: the window of a key that at most one of the goroutines adds to is the one that results
-- when the goroutines run one after the other.
pub get_window_records-Schedule :
    {F : Type 0} (config : Config F) (key : Str) (past calls : Log) (goroutines : List Log)
    → Schedule goroutines calls
    → IsOwned key goroutines
    → get_window_records key (add_all config [] (past ++ calls))
      ≡ get_window_records key (add_all config [] (past ++ in_turn goroutines))
get_window_records-Schedule config key past calls goroutines schedule owned =
    get_window_records-add_all config (past ++ calls) key
    ∙ ap (latest config.window_size) (
        history-append key past calls
        ∙ ap (λ h. history key past ++ h) (history-Schedule key schedule owned)
        ∙ sym (history-append key past (in_turn goroutines)))
    ∙ sym (get_window_records-add_all config (past ++ in_turn goroutines) key)
