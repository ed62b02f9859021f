-- ===== src/Base/Float.antt =====
-- Go's `float64` is a parameter: a type with the operations that the program uses. No law of IEEE 754
-- is assumed of them.
use lag_radar.Base.{Bool}
use lag_radar.Base.Int.{ℤ, pos}
use lag_radar.Base.Clock.{Duration, second, quot, rem}

pub record Float64 {ℓ} (F : Type ℓ) : Type ℓ where
  pub of_int : ℤ → F
  pub add : F → F → F
  pub sub : F → F → F
  pub mul : F → F → F
  pub div : F → F → F
  pub abs : F → F
  pub lt : F → F → Bool
  pub eq : F → F → Bool

module _ {ℓ} {F : Type ℓ} ⦃f : Float64 F⦄ where
  abbrev pub zero_float : F
  zero_float = f.of_int (pos 0)

  -- `d.Seconds()`
  unfoldable pub seconds : Duration → F
  unfolding quot rem
  seconds d =
      f.add (f.of_int (quot d second)) (f.div (f.of_int (rem d second)) (f.of_int (pos second)))
