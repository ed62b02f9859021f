-- ===== src/Collector/Cycle/Retention.antt =====
-- The loop of `StartPeriodicCollection` and its cleanup: which windows are ever removed.
use lag_radar.Base.{◌≡◌, refl, inl, inr, List, [], ◌∷◌, ◌++◌, some, Bool-cases, ◌==◌, IsSome, All}
use lag_radar.Base.Int.{ℤ}
use lag_radar.Base.Text.{Str, colon, itoa, NoColon}
use lag_radar.Base.Float.{Float64}
use lag_radar.Base.Map.{Map, lookup}
use lag_radar.Base.Result.{Result, ok, err}
use lag_radar.Collector.Types.{GroupStatus}
use lag_radar.Collector.Window.{Windows, window_key, before_colon}
use lag_radar.Collector.State.{Error, Setup, Collector}
use lag_radar.Collector.Cycle.{
  Wake, tick, cleanup_tick, done, Loop, running, finished, stuck, panicked,
}

-- Every key of the windows satisfies `Q`.
abbrev OnKeys {ℓ} : (Str → Type ℓ) → Windows → Type ℓ
OnKeys Q = All λ e. Q e.0

window_key-has_colon : (g t : Str) (p : ℤ) → (a : Str) × (before_colon (window_key g t p) ≡ some a)
unfolding window_key before_colon
window_key-has_colon g t p = go g
  where
    go : (s : Str) → (a : Str) × (before_colon (s ++ (colon ∷ (t ++ (colon ∷ itoa p)))) ≡ some a)
    go [] = ([], refl)
    go (c ∷ s) = elim (Bool-cases (c == colon)) [
      | inl here ↦ ([], rw (here, before_colon))
      | inr there ↦ let (a, e) = go s in (c ∷ a, rw (there, before_colon, e))
    ]

-- No group of the list has a colon in its name.
abbrev pub Colonless : Result Error (List Str) → Type 0
Colonless (ok groups) = All NoColon groups
Colonless (err e) = Unit

module _ {F : Type 0} where
  -- The key is that of a group which has no colon in its name and has a stored status.
  abbrev Owned : Map (GroupStatus F) → Str → Type 0
  Owned store key =
      (g t : Str) × (p : ℤ) × (key ≡ window_key g t p) × NoColon g × IsSome (lookup g store)

  abbrev pub ColonlessWake : Wake F → Type 0
  ColonlessWake (tick round) = Colonless round.list_consumer_groups
  ColonlessWake cleanup_tick = Unit
  ColonlessWake done = Unit

module _ {F H : Type 0} ⦃f : Float64 F⦄ (setup : Setup F H) (cluster : Str) where
  abbrev Inv : Collector F H → Type 0
  Inv c = OnKeys (Owned c.status_store) c.windows

  -- The loop has not panicked, and where it has a collector this satisfies the invariant.
  abbrev LoopInv : Loop F H → Type 0
  LoopInv (running c) = Inv c
  LoopInv (finished c) = Inv c
  LoopInv stuck = Unit
  LoopInv panicked = ⊥
