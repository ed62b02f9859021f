-- ===== src/Collector/Cycle/Goroutines/Semaphore.antt =====
-- The semaphore of `CollectMetricsWithCluster`: a channel with room for `max_concurrency` goroutines. A
-- negative number, for which `make` panics, is not represented.
use lag_radar.Base.{ℕ, suc, ◌+◌, ◌*◌, ◌<◌, ◌≡◌, List, [], ◌∷◌, length}
use lag_radar.Base.Text.{Str}
use lag_radar.Collector.State.{Collector}

-- The groups whose goroutines are not yet started, and how many goroutines hold a place of `sem`.
pub record Spawning : Type 0 where
  pub waiting : List Str
  pub held : ℕ

unfoldable pub nothing_spawned : List Str → Spawning
nothing_spawned groups = record { waiting = groups; held = 0 }

-- `sem <- struct{}{}` goes on where the channel has room, and a goroutine that ends does `<-sem`.
pub data Turn (capacity : ℕ) : Spawning → Spawning → Type 0 where
  sends :
      {g : Str} {rest : List Str} {n : ℕ}
      → n < capacity
      → Turn capacity
          (record { waiting = g ∷ rest; held = n })
          (record { waiting = rest; held = suc n })
  receives :
      {rest : List Str} {n : ℕ}
      → Turn capacity
          (record { waiting = rest; held = suc n })
          (record { waiting = rest; held = n })

-- A number of turns.
pub data Turns (capacity : ℕ) (s : Spawning) : ℕ → Spawning → Type 0 where
  no_turn : Turns capacity s 0 s
  then_turn :
      {n : ℕ} {t u : Spawning}
      → Turns capacity s n t
      → Turn capacity t u
      → Turns capacity s (suc n) u

-- Every goroutine has been started, and has ended.
abbrev pub IsDone : Spawning → Type 0
IsDone s = (s.waiting ≡ []) × (s.held ≡ 0)

-- The turns that are still to come.
turns_left : Spawning → ℕ
turns_left s = 2 * length s.waiting + s.held
