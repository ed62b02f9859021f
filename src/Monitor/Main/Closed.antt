-- ===== src/Monitor/Main/Closed.antt =====
-- What is closed at the end of `main`.
use lag_radar.Base.{◌≡◌}
use lag_radar.Base.Text.{Str}
use lag_radar.Base.Float.{Float64}
use lag_radar.Collector.Types.{Config}
use lag_radar.Cluster.{Manager, World}
use lag_radar.Monitor.{Environment}
use lag_radar.Cluster.Helper.{Hooked}
use lag_radar.Monitor.System.{Reachable, later, woken}
use lag_radar.Monitor.System.Shutdown.{tally, starts, cancels, closes, each_collector_closed}
use lag_radar.Monitor.System.Started.{start-Reachable}
use lag_radar.Monitor.Main.{
  Wakes, still, wakes, Ending, fatal, registration_panicked, shut_down, Main, not_started,
  not_registered, interrupted, collector_panicked, crashed_at_start, crashed,
}

module _ {F H : Type 0} where
  -- Of each name, as many collectors have been cancelled and closed as started.
  abbrev pub IsClosed : Manager F H → Str → Type 0
  IsClosed m n =
      (tally (cancels n) m.effects ≡ tally (starts n) m.effects)
      × (tally (closes n) m.effects ≡ tally (starts n) m.effects)

  abbrev pub LeavesClosed : Ending F H → Str → Type 0
  LeavesClosed (fatal e) n = Unit
  LeavesClosed (registration_panicked m) n = IsClosed m n
  LeavesClosed (shut_down m) n = IsClosed m n
  LeavesClosed (collector_panicked m) n = Unit

Wakes-Reachable :
    {F H : Type 0} ⦃f : Float64 F⦄ (world : World F H) {config : Config F} {m last : Manager F H}
    → Reachable world config m
    → Wakes m last
    → Reachable world config last
Wakes-Reachable world reached still = reached
Wakes-Reachable world reached (wakes name w before there ran) =
    later (Wakes-Reachable world reached before) (woken name w there ran)

module _ {F A C S : Type 0} ⦃f : Float64 F⦄ (env : Environment F A C S) where
  -- However `main` ends after its start, by a panic of the registration of its routes or by a signal
  -- after any wakes of its collectors, and not by a panic of the goroutine of a collector: of each name, as many collectors have been cancelled, and as many
  -- closed, as have been started.
  pub Main-LeavesClosed :
      {ending : Ending F (Hooked S)} (n : Str) → Main env ending → LeavesClosed ending n
  Main-LeavesClosed n (not_started e) = tt
  Main-LeavesClosed n (crashed_at_start name first started there panics) = tt
  Main-LeavesClosed n (crashed name w started woke there panics) = tt
  Main-LeavesClosed n (not_registered chosen loaded started panics) =
      let (file, check, timeout, reached) = start-Reachable env started in
      let (cancelling, closing, left) = each_collector_closed _ n reached in (cancelling, closing)
  Main-LeavesClosed n (interrupted chosen loaded started registers woke) =
      let (file, check, timeout, reached) = start-Reachable env started in
      let (cancelling, closing, left) =
        each_collector_closed _ n (Wakes-Reachable _ reached woke) in
      (cancelling, closing)
