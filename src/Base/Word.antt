-- ===== src/Base/Word.antt =====
-- Go's `int64`: an integer with the wrap-around of its operations written out.
use lag_radar.Base.{ℕ, ◌-◌, ◌%◌, ◌^◌, ◌≡◌, Bool, ◌&&◌, arith, ltb, ◌==◌, if◌then◌else◌}
use lag_radar.Base.Int.{ℤ, pos, negsuc, pos_part, neg_part, ◌+ℤ◌, ◌-ℤ◌, ◌≤ℤ◌}

abbrev pub max_int64 : ℤ
max_int64 = pos (2 ^ 63 - 1)

abbrev pub min_int64 : ℤ
min_int64 = negsuc (2 ^ 63 - 1)

-- The bit pattern of an integer, and the integer of a bit pattern.
abbrev to_word : ℤ → ℕ
to_word (pos n) = n % 2 ^ 64
to_word (negsuc n) = 2 ^ 64 - 1 - n % 2 ^ 64

abbrev of_word : ℕ → ℤ
of_word w = if ltb w (2 ^ 63) then pos w else negsuc (2 ^ 64 - 1 - w)

unfoldable pub wrap : ℤ → ℤ
wrap z = of_word (to_word z)

unfoldable pub add_i64 : ℤ → ℤ → ℤ
add_i64 a b = wrap (a +ℤ b)

unfoldable pub sub_i64 : ℤ → ℤ → ℤ
sub_i64 a b = wrap (a -ℤ b)

abbrev pub IsInt64 : ℤ → Type 0
IsInt64 z = (min_int64 ≤ℤ z) × (z ≤ℤ max_int64)

abbrev pub eqb_ℤ : ℤ → ℤ → Bool
eqb_ℤ a b = pos_part a == pos_part b && neg_part a == neg_part b

pub wrap-IsInt64 : (z : ℤ) → IsInt64 (wrap z)
unfolding wrap
wrap-IsInt64 (pos n) = ground arith
wrap-IsInt64 (negsuc n) = ground arith

-- What fits is not changed.
pub wrap_of_IsInt64 : (z : ℤ) → IsInt64 z → wrap z ≡ z
unfolding wrap
wrap_of_IsInt64 (pos n) h = ground arith
wrap_of_IsInt64 (negsuc n) h = ground arith
