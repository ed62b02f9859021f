-- ===== src/Rca/Publisher/Retry.antt =====
-- The retry loop of `PublishPartitionEvent`: how many attempts are made, and what is returned.
use lag_radar.Base.{ℕ, zero, suc, ◌<◌, ◌≡◌, refl, Option, none, some, arith}
use lag_radar.Base.Text.{Str}
use lag_radar.Base.Clock.{Time}
use lag_radar.Base.Result.{ok, err}
use lag_radar.Rca.Publisher.{StreamEntry, Redis, publish_failed, add_with_retries}

module _ {S : Type 0} (redis : Redis S) (now : Time) (key : Str) (entry : StreamEntry) where
  -- The server after some attempts from a state on.
  unfoldable pub attempts_from : ℕ → S → S
  attempts_from zero s = s
  attempts_from (suc n) s = attempts_from n (redis.x_add now key entry s).1

  -- The first `n` attempts from a state on fail.
  abbrev pub AllFail : ℕ → S → Type 0
  AllFail zero s = Unit
  AllFail (suc n) s =
      ((e : ℕ) × ((redis.x_add now key entry s).0 ≡ err e))
      × AllFail n (redis.x_add now key entry s).1

  -- If the first `k` attempts fail and the next one, which is still allowed, succeeds, nil is returned
  -- after exactly `k + 1` attempts.
  pub retries_succeed :
      (attempts left k : ℕ) (last : Option ℕ) (s : S) {id : Str}
      → k < left
      → AllFail k s
      → (redis.x_add now key entry (attempts_from k s)).0 ≡ ok id
      → add_with_retries redis now key entry attempts left last s ≡ (none, attempts_from (suc k) s)
  unfolding add_with_retries attempts_from
  retries_succeed attempts zero k last s h fails done = absurd (omega arith)
  retries_succeed attempts (suc left) zero last s h fails done = rw done
  retries_succeed attempts (suc left) (suc k) last s h fails done = rw fails.0.1 (
      retries_succeed attempts left k (some fails.0.0) (redis.x_add now key entry s).1 (omega arith)
        fails.1 done)

  -- If all the allowed attempts fail, an error is returned after exactly that many attempts.
  pub retries_fail :
      (attempts left : ℕ) (last : Option ℕ) (s : S)
      → AllFail left s
      → (e : Option ℕ) × (add_with_retries redis now key entry attempts left last s
          ≡ (some (publish_failed attempts e), attempts_from left s))
  unfolding add_with_retries attempts_from
  retries_fail attempts zero last s fails = (last, refl)
  retries_fail attempts (suc left) last s fails =
      let (e, rest) =
        retries_fail attempts left (some fails.0.0) (redis.x_add now key entry s).1 fails.1 in
      (e, rw fails.0.1 rest)
