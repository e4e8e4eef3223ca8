-- ===== src/Daemon.antt =====
-- daemon/timer.go: the loop that starts backups, prunes and reports of usage on its own. What a
-- round of it finds outside, and the answers of the calls that it makes, are given.
pub mod Spaced
use tless.Prelude.{
  ℕ, ◌+◌, Bool, true, false, not, ◌&&◌, Option, none, some, List, [], ◌∷◌, ◌++◌, ltb, if◌then◌else◌,
}
use tless.Database.{Result, ok, err}

abbrev pub dont_do_anything_first_n_seconds : ℕ
dont_do_anything_first_n_seconds = 900

abbrev pub automatic_backup_every_n_seconds : ℕ
automatic_backup_every_n_seconds = 86400

abbrev pub automatic_prune_every_n_seconds : ℕ
automatic_prune_every_n_seconds = 86400

abbrev pub persist_usage_every_n_seconds : ℕ
persist_usage_every_n_seconds = 21600

pub record Timer : Type 0 where
  pub started_at : ℕ
  pub last_autoprune : ℕ
  pub last_persist_usage : ℕ

-- One round: the time at which it wakes, whether the configuration is ready, the time of the last
-- backup, whether the daemon is idle at each of the three questions, whether the prune succeeds,
-- and the times after the prune, after its report of usage, and after the report of the round.
pub record Wake : Type 0 where
  pub now : ℕ
  pub is_ready : Bool
  pub last_backup : Result ℕ
  pub is_idle_for_backup : Bool
  pub is_idle_for_prune : Bool
  pub is_idle_for_usage : Bool
  pub is_pruned : Bool
  pub pruned_at : ℕ
  pub reported_at : ℕ
  pub persisted_at : ℕ

pub data Action : Type 0 where
  started_backup : Action
  pruned : Action
  failed_prune : Action
  persisted_usage : Action

-- An error is only logged, and the time is 0.
abbrev pub time_or_zero : Result ℕ → ℕ
time_or_zero (ok time) = time
time_or_zero (err e) = 0

-- More than `seconds` have passed since `last`.
abbrev pub has_passed : ℕ → ℕ → ℕ → Bool
has_passed seconds last now = ltb (last + seconds) now

unfoldable pub attempt_backup : Wake → List (ℕ × Action)
attempt_backup w =
    if has_passed automatic_backup_every_n_seconds (time_or_zero w.last_backup) w.now
      && w.is_idle_for_backup
    then (w.now, started_backup) ∷ []
    else []

unfoldable pub attempt_prune : Wake → Timer → List (ℕ × Action) × Timer
attempt_prune w s =
    if has_passed automatic_prune_every_n_seconds s.last_autoprune w.now && w.is_idle_for_prune
    then if w.is_pruned
      then (
        (w.now, pruned) ∷ (w.now, persisted_usage) ∷ [],
        record s { last_autoprune = w.pruned_at; last_persist_usage = w.reported_at },
      )
      else ((w.now, failed_prune) ∷ [], s)
    else ([], s)

unfoldable pub attempt_persist_usage : Wake → Timer → List (ℕ × Action) × Timer
attempt_persist_usage w s =
    if has_passed persist_usage_every_n_seconds s.last_persist_usage w.now && w.is_idle_for_usage
    then ((w.now, persisted_usage) ∷ [], record s { last_persist_usage = w.persisted_at })
    else ([], s)

abbrev pub is_awake : Wake → Timer → Bool
is_awake w s = w.is_ready && not (ltb w.now (s.started_at + dont_do_anything_first_n_seconds))

-- The round, with what it did at its time.
unfoldable pub timer_round : Wake → Timer → List (ℕ × Action) × Timer
unfolding attempt_backup attempt_prune attempt_persist_usage
timer_round w s =
    let (prunes, s') = attempt_prune w s in
    let (reports, s'') = attempt_persist_usage w s' in
    if is_awake w s then (attempt_backup w ++ (prunes ++ reports), s'') else ([], s)

-- The first rounds of the loop.
unfoldable pub timer_loop : List Wake → Timer → List (ℕ × Action)
unfolding timer_round
timer_loop [] s = []
timer_loop (w ∷ wakes) s = let (did, s') = timer_round w s in did ++ timer_loop wakes s'
