-- ===== src/Daemon/Spaced.antt =====
-- When the daemon acts on its own.
use mathlib.Core.Path.{subst}
use mathlib.Core.List.{append_assoc}
use tless.Prelude.{
  ℕ, ◌+◌, ◌≤◌, ◌<◌, inl, inr, ◌&&◌, List, [], ◌∷◌, ◌++◌, ltb, Bool-cases, arith, sym, ap, ◌∙◌, ◌≡◌,
  refl, All, true,
}
use tless.Daemon.{
  Timer, Wake, Action, started_backup, pruned, failed_prune, persisted_usage, time_or_zero,
  has_passed, attempt_backup, attempt_prune, attempt_persist_usage, timer_round, timer_loop,
  is_awake,
}

-- The clock goes on while the daemon prunes.
abbrev pub IsForward : Wake → Type 0
IsForward w = w.now ≤ w.pruned_at

-- Each prune comes more than a day after the one before, the first after `last`.
abbrev pub IsSpaced : ℕ → List (ℕ × Action) → Type 0
IsSpaced last [] = Unit
IsSpaced last ((now, started_backup) ∷ log) = IsSpaced last log
IsSpaced last ((now, pruned) ∷ log) = (last + 86400 < now) × IsSpaced now log
IsSpaced last ((now, failed_prune) ∷ log) = (last + 86400 < now) × IsSpaced last log
IsSpaced last ((now, persisted_usage) ∷ log) = IsSpaced last log

-- What follows a round: the log after it is spaced from every time up to the state's last prune.
abbrev Goes : List (ℕ × Action) → Timer → List (ℕ × Action) → Timer → Type 0
Goes did s rest s' =
    ((last : ℕ) → last ≤ s'.last_autoprune → IsSpaced last rest)
    → (last : ℕ) → last ≤ s.last_autoprune
    → IsSpaced last (did ++ rest)

backup-IsSpaced :
    (w : Wake) (last : ℕ) (rest : List (ℕ × Action))
    → IsSpaced last rest
    → IsSpaced last (attempt_backup w ++ rest)
unfolding attempt_backup
backup-IsSpaced w last rest h =
    elim (Bool-cases
      (has_passed 86400 (time_or_zero w.last_backup) w.now && w.is_idle_for_backup)) [
        | inl e ↦ rw (attempt_backup, e) h
        | inr e ↦ rw (attempt_backup, e) h
      ]

usage-IsSpaced :
    (w : Wake) (s : Timer) (rest : List (ℕ × Action))
    → Goes (attempt_persist_usage w s).0 s rest (attempt_persist_usage w s).1
unfolding attempt_persist_usage
usage-IsSpaced w s rest =
    elim (Bool-cases (has_passed 21600 s.last_persist_usage w.now && w.is_idle_for_usage)) [
      | inl e ↦ rw (attempt_persist_usage, e) (λ h last l. h last l)
      | inr e ↦ rw (attempt_persist_usage, e) (λ h last l. h last l)
    ]

prune-IsSpaced :
    (w : Wake) (s : Timer) (rest : List (ℕ × Action))
    → IsForward w
    → Goes (attempt_prune w s).0 s rest (attempt_prune w s).1
unfolding attempt_prune
prune-IsSpaced w s rest f =
    elim (Bool-cases (ltb (s.last_autoprune + 86400) w.now && w.is_idle_for_prune)) [
      | inl e ↦ elim (Bool-cases w.is_pruned) [
        | inl p ↦ rw (attempt_prune, e, p) (λ h last l. (ground arith, h w.now f))
        | inr p ↦ rw (attempt_prune, e, p) (λ h last l. (ground arith, h last l))
      ]
      | inr e ↦ rw (attempt_prune, e) (λ h last l. h last l)
    ]

round-IsSpaced :
    (w : Wake) (s : Timer) (rest : List (ℕ × Action))
    → IsForward w
    → Goes (timer_round w s).0 s rest (timer_round w s).1
unfolding timer_round
round-IsSpaced w s rest f = elim (Bool-cases (is_awake w s)) [
  | inr e ↦ rw (timer_round, e) (λ h last l. h last l)
  | inl e ↦
      rw (timer_round, e)
        (λ h last l.
          let (prunes, s') = attempt_prune w s in
          let reports = (attempt_persist_usage w s').0 in
          let whole : (attempt_backup w ++ (prunes ++ reports)) ++ rest
              ≡ attempt_backup w ++ (prunes ++ (reports ++ rest)) =
            append_assoc (attempt_backup w) (prunes ++ reports) rest
            ∙ ap (λ l. attempt_backup w ++ l) (append_assoc prunes reports rest) in
          subst (IsSpaced last) (sym whole) (
            backup-IsSpaced w last (prunes ++ (reports ++ rest))
              (prune-IsSpaced w s (reports ++ rest) f (usage-IsSpaced w s' rest h) last l)))
]

abbrev pub IsLate : ℕ → List (ℕ × Action) → Type 0
IsLate from log = All (λ (e : ℕ × Action). from ≤ e.0) log

IsLate-append :
    (from : ℕ) (xs ys : List (ℕ × Action))
    → IsLate from xs
    → IsLate from ys
    → IsLate from (xs ++ ys)
IsLate-append from [] ys a b = b
IsLate-append from (x ∷ xs) ys a b = (a.0, IsLate-append from xs ys a.1 b)

backup-IsLate : (w : Wake) (from : ℕ) → from ≤ w.now → IsLate from (attempt_backup w)
unfolding attempt_backup
backup-IsLate w from l =
    elim (Bool-cases
      (has_passed 86400 (time_or_zero w.last_backup) w.now && w.is_idle_for_backup)) [
        | inl e ↦ rw (attempt_backup, e) (l, tt)
        | inr e ↦ rw (attempt_backup, e) tt
      ]

prune-IsLate :
    (w : Wake) (s : Timer) (from : ℕ)
    → from ≤ w.now
    → IsLate from (attempt_prune w s).0 × ((attempt_prune w s).1.started_at ≡ s.started_at)
unfolding attempt_prune
prune-IsLate w s from l =
    elim (Bool-cases (ltb (s.last_autoprune + 86400) w.now && w.is_idle_for_prune)) [
      | inl e ↦ elim (Bool-cases w.is_pruned) [
        | inl p ↦ rw (attempt_prune, e, p) ((l, (l, tt)), refl)
        | inr p ↦ rw (attempt_prune, e, p) ((l, tt), refl)
      ]
      | inr e ↦ rw (attempt_prune, e) (tt, refl)
    ]

usage-IsLate :
    (w : Wake) (s : Timer) (from : ℕ)
    → from ≤ w.now
    → IsLate from (attempt_persist_usage w s).0
      × ((attempt_persist_usage w s).1.started_at ≡ s.started_at)
unfolding attempt_persist_usage
usage-IsLate w s from l =
    elim (Bool-cases (has_passed 21600 s.last_persist_usage w.now && w.is_idle_for_usage)) [
      | inl e ↦ rw (attempt_persist_usage, e) ((l, tt), refl)
      | inr e ↦ rw (attempt_persist_usage, e) (tt, refl)
    ]

awake-late : (w : Wake) (s : Timer) → is_awake w s ≡ true → s.started_at + 900 ≤ w.now
awake-late w s e = ground arith

round-IsLate :
    (w : Wake) (s : Timer)
    → IsLate (s.started_at + 900) (timer_round w s).0
      × ((timer_round w s).1.started_at ≡ s.started_at)
unfolding timer_round
round-IsLate w s = elim (Bool-cases (is_awake w s)) [
  | inr e ↦ rw (timer_round, e) (tt, refl)
  | inl e ↦
      let late = awake-late w s e in
      let s' = (attempt_prune w s).1 in
      let (prunes, kept) = prune-IsLate w s (s.started_at + 900) late in
      let (reports, kept') = usage-IsLate w s' (s.started_at + 900) late in
      rw (timer_round, e)
        (
          IsLate-append (s.started_at + 900) (attempt_backup w) _
              (backup-IsLate w (s.started_at + 900) late)
              (IsLate-append (s.started_at + 900) (attempt_prune w s).0 _ prunes reports),
          kept' ∙ kept,
        )
]

-- Where the clock goes on during each prune: in the first rounds of the loop, as many as one
-- likes, nothing is done in the first 15 minutes, and each attempt of a prune comes more than a
-- day after the last prune that succeeded, or after the time that the loop was given.
pub timer_loop_lem :
    (wakes : List Wake) (s : Timer)
    → All IsForward wakes
    → IsSpaced s.last_autoprune (timer_loop wakes s)
      × IsLate (s.started_at + 900) (timer_loop wakes s)
unfolding timer_loop
timer_loop_lem wakes s f = (go wakes s f s.last_autoprune (omega arith), late wakes s)
  where
    go :
        (wakes : List Wake) (s : Timer)
        → All IsForward wakes
        → (last : ℕ) → last ≤ s.last_autoprune
        → IsSpaced last (timer_loop wakes s)
    go [] s f last l = tt
    go (w ∷ wakes) s (f, fs) last l =
        round-IsSpaced w s (timer_loop wakes (timer_round w s).1) f
          (λ k m. go wakes (timer_round w s).1 fs k m) last l

    late : (wakes : List Wake) (s : Timer) → IsLate (s.started_at + 900) (timer_loop wakes s)
    late [] s = tt
    late (w ∷ wakes) s =
        let (now, kept) = round-IsLate w s in
        IsLate-append (s.started_at + 900) (timer_round w s).0 _ now (
          subst (λ t. IsLate (t + 900) (timer_loop wakes (timer_round w s).1)) kept
            (late wakes (timer_round w s).1))
