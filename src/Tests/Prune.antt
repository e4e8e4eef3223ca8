-- ===== src/Tests/Prune.antt =====
-- The prune, on snapshots of one hour, of two that are three and five days old, and of last year.
use mathlib.Core.Path.{subst}
use tless.Prelude.Sort.{sort}
use tless.Prelude.{
  select, nat_eq, last, ℕ, ◌*◌, ◌-◌, ap, codes, ◌≡◌, ◌≤◌, ◌<◌, refl, inl, inr, true, List, [], ◌∷◌,
  In, arith,
}
use tless.Snapshots.{SnapshotInfo}
use tless.Snapshots.Prune.{
  keep_in_ranges, is_oldest_within, get_ordered_slice_within, is_newest_within, TimeRangeSecondsAgo,
  collect_keeps, time_is_within, three_days_in_sec, one_week_in_sec, one_day_in_sec,
  get_prune_keeps_list,
}
use tless.Snapshots.Prune.Within.{IsWithin}
use tless.Snapshots.Prune.Intermediate.{range_survives, deleted_is_intermediate, keeps-keeps}

abbrev at : ℕ → SnapshotInfo
at t = record { name = codes "s"; raw_snapshot_name = codes "home/s"; timestamp_unix = t }

-- 400 days after the epoch
abbrev now : ℕ
now = 400 * one_day_in_sec

abbrev days_ago : ℕ → SnapshotInfo
days_ago d = at ((400 - d) * one_day_in_sec)

abbrev infos : List SnapshotInfo
infos = days_ago 390 ∷ days_ago 6 ∷ days_ago 5 ∷ days_ago 4 ∷ days_ago 0 ∷ []

prune_run : get_prune_keeps_list now infos ≡ days_ago 6 ∷ days_ago 4 ∷ days_ago 0 ∷ []
unfolding get_prune_keeps_list collect_keeps time_is_within keep_in_ranges is_oldest_within
    get_ordered_slice_within sort select is_newest_within nat_eq last
prune_run = refl

abbrev week : TimeRangeSecondsAgo
week = record { from = three_days_in_sec; back_to = one_week_in_sec }

abbrev kept : List SnapshotInfo
kept = get_prune_keeps_list now infos

day_5 : time_is_within now week (days_ago 5).timestamp_unix ≡ true
unfolding time_is_within
day_5 = refl

range_survives_example :
    ((a : SnapshotInfo) × IsWithin now week kept a
      × (a.timestamp_unix ≤ (days_ago 5).timestamp_unix))
    × ((b : SnapshotInfo) × IsWithin now week kept b
        × ((days_ago 5).timestamp_unix ≤ b.timestamp_unix))
range_survives_example =
    range_survives now infos week (days_ago 5) (inr (inl refl)) (inr (inr (inl refl)), day_5)

time_eq : {a b : SnapshotInfo} → a ≡ b → a.timestamp_unix ≡ b.timestamp_unix
time_eq e = ap (λ (s : SnapshotInfo). s.timestamp_unix) e

is_gone : ¬ In (days_ago 5) kept
is_gone m = elim (subst (In (days_ago 5)) prune_run m) [
  | inl e ↦ omega (arith, time_eq e)
  | inr (inl e) ↦ omega (arith, time_eq e)
  | inr (inr (inl e)) ↦ omega (arith, time_eq e)
  | inr (inr (inr e)) ↦ elim e [ ]
]

deleted_is_intermediate_example :
    ((a : SnapshotInfo) × In a kept × (a.timestamp_unix < (days_ago 5).timestamp_unix))
    × ((b : SnapshotInfo) × In b kept × ((days_ago 5).timestamp_unix < b.timestamp_unix))
deleted_is_intermediate_example =
    deleted_is_intermediate now infos (days_ago 5) (inr (inr (inl refl))) (omega arith)
      (omega arith) is_gone

keeps-keeps_example : get_prune_keeps_list now kept ≡ kept
keeps-keeps_example = keeps-keeps now infos
