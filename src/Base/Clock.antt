-- ===== src/Base/Clock.antt =====
-- Go's `time.Time` and `time.Duration`, in nanoseconds. A time is counted from the Unix epoch; a
-- duration is an `int64`.
use lag_radar.Base.{ℕ, zero, suc, ◌*◌, ◌/◌, ◌%◌, ◌-◌, if◌then◌else◌}
use lag_radar.Base.Int.{ℤ, pos, negsuc, ◌-ℤ◌, ltb_ℤ}
use lag_radar.Base.Word.{max_int64, min_int64}

abbrev pub Time : Type 0
Time = ℤ

abbrev pub Duration : Type 0
Duration = ℤ

-- `time.Time{}`, the first of January of year 1.
abbrev pub zero_time : Time
zero_time = negsuc (62_135_596_800 * 1_000_000_000 - 1)

abbrev pub second : ℕ
second = 1_000_000_000

abbrev pub minute : ℕ
minute = 60 * second

-- `t.Sub(u)` stays at the ends of the range.
unfoldable pub sub_time : Time → Time → Duration
sub_time t u =
    let d = t -ℤ u in
    if ltb_ℤ max_int64 d then max_int64 else if ltb_ℤ d min_int64 then min_int64 else d

-- Division of an integer by a positive number, towards zero, and its remainder.
unfoldable pub quot : ℤ → ℕ → ℤ
quot (pos n) k = pos (n / k)
quot (negsuc n) k = pos 0 -ℤ pos (suc n / k)

unfoldable pub rem : ℤ → ℕ → ℤ
rem (pos n) k = pos (n % k)
rem (negsuc n) k = pos 0 -ℤ pos (suc n % k)

-- The remainder of a division that rounds down.
mod_floor : ℤ → ℕ → ℕ
mod_floor (pos n) k = n % k
mod_floor (negsuc n) k = k - 1 - n % k

-- `t.Truncate(d)`: down to a multiple of `d`, counted from the zero time.
unfoldable pub truncate : Time → Duration → Time
unfolding mod_floor
truncate t (pos zero) = t
truncate t (pos (suc k)) = t -ℤ pos (mod_floor (t -ℤ zero_time) (suc k))
truncate t (negsuc k) = t

-- `t.Unix()`, which rounds down.
unfoldable pub unix : Time → ℤ
unix (pos n) = pos (n / second)
unix (negsuc n) = negsuc (n / second)
