-- ===== src/Snapshots/Prune.antt =====
-- pkg/snapshots/prune.go. `now` is the Unix time that `time.Now` returns, one value for one call
-- of `GetPruneKeepsList`. Times are numbers of seconds since 1970, and the source's subtractions
-- from `now` are carried to the other side of each comparison, since those of ℕ stop at 0.
pub mod Within
pub mod Keeps
pub mod Intermediate
use tless.Prelude.{
  ℕ, ◌+◌, ◌*◌, Bool, false, ◌&&◌, ◌||◌, List, [], ◌∷◌, ◌++◌, leb, ltb, if◌then◌else◌, ◌==◌, nat_eq,
  select, last,
}
use tless.Prelude.Sort.{sort}
use tless.Snapshots.{SnapshotInfo}

pub record TimeRangeSecondsAgo : Type 0 where
  pub from : ℕ
  pub back_to : ℕ

unfoldable pub time_is_within : ℕ → TimeRangeSecondsAgo → ℕ → Bool
time_is_within now tr unix_timestamp =
    leb (unix_timestamp + tr.from) now && ltb now (unix_timestamp + tr.back_to)

unfoldable pub get_ordered_slice_within :
    ℕ → TimeRangeSecondsAgo → List SnapshotInfo → List SnapshotInfo
get_ordered_slice_within now tr ssi_full_set =
    sort (λ ssi. ssi.timestamp_unix)
      (select (λ ssi. time_is_within now tr ssi.timestamp_unix) ssi_full_set)

unfoldable pub is_oldest_within : ℕ → TimeRangeSecondsAgo → ℕ → List SnapshotInfo → Bool
is_oldest_within now tr unix_timestamp ssi_full_set =
    elim (get_ordered_slice_within now tr ssi_full_set) [
      | [] ↦ false
      | oldest ∷ _ ↦ oldest.timestamp_unix == unix_timestamp
    ]

unfoldable pub is_newest_within : ℕ → TimeRangeSecondsAgo → ℕ → List SnapshotInfo → Bool
is_newest_within now tr unix_timestamp ssi_full_set =
    elim (get_ordered_slice_within now tr ssi_full_set) [
      | [] ↦ false
      | first ∷ rest ↦ (last first rest).timestamp_unix == unix_timestamp
    ]

abbrev pub one_hour_in_sec : ℕ
one_hour_in_sec = 60 * 60

abbrev pub one_day_in_sec : ℕ
one_day_in_sec = 24 * one_hour_in_sec

abbrev pub three_days_in_sec : ℕ
three_days_in_sec = 3 * one_day_in_sec

abbrev pub one_week_in_sec : ℕ
one_week_in_sec = 7 * one_day_in_sec

abbrev pub one_month_in_sec : ℕ
one_month_in_sec = 30 * one_day_in_sec

abbrev pub one_year_in_sec : ℕ
one_year_in_sec = 12 * one_month_in_sec

abbrev pub keep_everything : TimeRangeSecondsAgo
keep_everything = record { from = 0; back_to = one_day_in_sec }

abbrev pub keep_oldest_newest : List TimeRangeSecondsAgo
keep_oldest_newest =
    record { from = one_day_in_sec; back_to = three_days_in_sec }
    ∷ record { from = three_days_in_sec; back_to = one_week_in_sec }
    ∷ record { from = one_week_in_sec; back_to = one_month_in_sec }
    ∷ record { from = one_month_in_sec; back_to = one_year_in_sec }
    ∷ []

-- The inner loop. Its `continue` goes on with the next range.
unfoldable pub keep_in_ranges :
    ℕ
    → List SnapshotInfo
    → SnapshotInfo
    → List TimeRangeSecondsAgo
    → List SnapshotInfo
    → List SnapshotInfo
keep_in_ranges now snapshot_infos ss [] keeps = keeps
keep_in_ranges now snapshot_infos ss (ago_range ∷ ranges) keeps =
    keep_in_ranges now snapshot_infos ss ranges (
      if is_oldest_within now ago_range ss.timestamp_unix snapshot_infos
      then keeps ++ (ss ∷ [])
      else if is_newest_within now ago_range ss.timestamp_unix snapshot_infos
      then keeps ++ (ss ∷ [])
      else keeps)

-- The outer loop, over the snapshots that are left.
unfoldable pub collect_keeps :
    ℕ → List SnapshotInfo → List SnapshotInfo → List SnapshotInfo → List SnapshotInfo
collect_keeps now snapshot_infos [] keeps = keeps
collect_keeps now snapshot_infos (ss ∷ rest) keeps = collect_keeps now snapshot_infos rest (
    if time_is_within now keep_everything ss.timestamp_unix
    then keeps ++ (ss ∷ [])
    else keep_in_ranges now snapshot_infos ss keep_oldest_newest keeps)

unfoldable pub get_prune_keeps_list : ℕ → List SnapshotInfo → List SnapshotInfo
get_prune_keeps_list now snapshot_infos = collect_keeps now snapshot_infos snapshot_infos []

unfoldable pub keeps_contains : ℕ → List SnapshotInfo → Bool
keeps_contains search_timestamp [] = false
keeps_contains search_timestamp (k ∷ keeps) =
    k.timestamp_unix == search_timestamp || keeps_contains search_timestamp keeps
