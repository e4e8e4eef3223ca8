-- ===== src/Tests/Timer.antt =====
-- Rounds of the daemon's timer.
use tless.Prelude.{ℕ, true, List, [], ◌∷◌, arith, ◌+◌}
use tless.Database.{ok}
use tless.Daemon.{Timer, Wake, timer_loop}
use tless.Daemon.Spaced.{IsSpaced, IsLate, timer_loop_lem}

abbrev timer : Timer
timer = record { started_at = 1000; last_autoprune = 1000; last_persist_usage = 1000 }

abbrev wake_at : ℕ → Wake
wake_at now = record {
  now = now;
  is_ready = true;
  last_backup = ok 500;
  is_idle_for_backup = true;
  is_idle_for_prune = true;
  is_idle_for_usage = true;
  is_pruned = true;
  pruned_at = now + 5;
  reported_at = now + 6;
  persisted_at = now + 7;
}

abbrev wakes : List Wake
wakes = wake_at 1060 ∷ wake_at 100000 ∷ wake_at 100060 ∷ wake_at 200000 ∷ []

timer_loop_example :
    IsSpaced timer.last_autoprune (timer_loop wakes timer)
    × IsLate (timer.started_at + 900) (timer_loop wakes timer)
timer_loop_example =
    timer_loop_lem wakes timer (omega arith, (omega arith, (omega arith, (omega arith, tt))))
