-- ===== src/Snapshots/Prune/Intermediate.antt =====
-- What a prune may delete: only what lies strictly between two snapshots that stay.
use mathlib.Core.Path.{subst}
use native.Mathlib.Decide.{dec_lt}
use tless.Prelude.{
  ℕ, ◌+◌, ◌≤◌, ◌<◌, ◌≡◌, ◌≢◌, refl, sym, ◌∙◌, ◌⊎◌, inl, inr, true, List, arith, In, select_self,
}
use tless.Snapshots.{SnapshotInfo}
use tless.Snapshots.Prune.{
  TimeRangeSecondsAgo, time_is_within, keep_everything, keep_oldest_newest, get_prune_keeps_list,
  one_year_in_sec, one_day_in_sec, three_days_in_sec, one_week_in_sec, one_month_in_sec,
}
use tless.Snapshots.Prune.Within.{
  IsWithin, IsOldestTime, IsNewestTime, oldest_exists, newest_exists,
}
use tless.Snapshots.Prune.Keeps.{
  is_kept, keeps-eq-select, In-keeps, is_kept_of_oldest, is_kept_of_newest, is_kept_of_today,
  is_kept-cases,
}

lt_of_ne : {m n : ℕ} → m ≤ n → m ≢ n → m < n
lt_of_ne h k = omega arith

module _ (now : ℕ) (infos : List SnapshotInfo) where
  abbrev keeps : List SnapshotInfo
  keeps = get_prune_keeps_list now infos

  -- For each snapshot in one of the ranges of `KeepOldestNewest`, the prune keeps one of that
  -- range that is no newer, and one that is no older.
  pub range_survives :
      (tr : TimeRangeSecondsAgo) (s : SnapshotInfo)
      → In tr keep_oldest_newest
      → IsWithin now tr infos s
      → ((a : SnapshotInfo) × IsWithin now tr keeps a × (a.timestamp_unix ≤ s.timestamp_unix))
        × ((b : SnapshotInfo) × IsWithin now tr keeps b × (s.timestamp_unix ≤ b.timestamp_unix))
  range_survives tr s r w =
      let (a, aw, ao) = oldest_exists now tr infos s w in
      let (b, bw, bn) = newest_exists now tr infos s w in
      (
        (
          a,
          ((In-keeps now infos a).1 (aw.0, is_kept_of_oldest now infos a tr r ao), aw.1),
          ao.1 s w,
        ),
        (
          b,
          ((In-keeps now infos b).1 (bw.0, is_kept_of_newest now infos b tr r bn), bw.1),
          bn.1 s w,
        ),
      )

  range_of_time :
      (t : ℕ)
      → t ≤ now
      → now < t + one_year_in_sec
      → (time_is_within now keep_everything t ≡ true)
        ⊎ ((tr : TimeRangeSecondsAgo) × In tr keep_oldest_newest × (time_is_within now tr t ≡ true))
  unfolding time_is_within
  range_of_time t h k = elim (dec_lt now (t + one_day_in_sec)) [
    | yes p ↦ inl (ground arith)
    | no p ↦ elim (dec_lt now (t + three_days_in_sec)) [
      | yes q ↦ inr (_, inl refl, ground arith)
      | no q ↦ elim (dec_lt now (t + one_week_in_sec)) [
        | yes r ↦ inr (_, inr (inl refl), ground arith)
        | no r ↦ elim (dec_lt now (t + one_month_in_sec)) [
          | yes u ↦ inr (_, inr (inr (inl refl)), ground arith)
          | no u ↦ inr (_, inr (inr (inr (inl refl))), ground arith)
        ]
      ]
    ]
  ]

  -- For each snapshot of the last year that the prune does not keep, it keeps an older one and a
  -- newer one.
  pub deleted_is_intermediate :
      (s : SnapshotInfo)
      → In s infos
      → s.timestamp_unix ≤ now
      → now < s.timestamp_unix + one_year_in_sec
      → ¬ In s keeps
      → ((a : SnapshotInfo) × In a keeps × (a.timestamp_unix < s.timestamp_unix))
        × ((b : SnapshotInfo) × In b keeps × (s.timestamp_unix < b.timestamp_unix))
  deleted_is_intermediate s m h k gone = elim (range_of_time s.timestamp_unix h k) [
    | inl today ↦ absurd (gone ((In-keeps now infos s).1 (m, is_kept_of_today now infos s today)))
    | inr (tr, r, w) ↦
        let (a, aw, ao) = oldest_exists now tr infos s (m, w) in
        let (b, bw, bn) = newest_exists now tr infos s (m, w) in
        let a_in : In a keeps =
          (In-keeps now infos a).1 (aw.0, is_kept_of_oldest now infos a tr r ao) in
        let b_in : In b keeps =
          (In-keeps now infos b).1 (bw.0, is_kept_of_newest now infos b tr r bn) in
        (
          (
            a,
            a_in,
            lt_of_ne (ao.1 s (m, w)) (λ e. gone (
                (In-keeps now infos s).1 (
                  m,
                  is_kept_of_oldest now infos s tr r (subst (IsOldestTime now tr infos) e ao),
                ))),
          ),
          (
            b,
            b_in,
            lt_of_ne (bn.1 s (m, w)) (λ e. gone (
                (In-keeps now infos s).1 (
                  m,
                  is_kept_of_newest now infos s tr r (subst (IsNewestTime now tr infos) (sym e) bn),
                ))),
          ),
        )
  ]

  oldest_of_keeps :
      (tr : TimeRangeSecondsAgo) (s : SnapshotInfo)
      → In s keeps
      → time_is_within now tr s.timestamp_unix ≡ true
      → IsOldestTime now tr infos s.timestamp_unix
      → IsOldestTime now tr keeps s.timestamp_unix
  oldest_of_keeps tr s m w o =
      ((s, (m, w), refl), λ a u. o.1 a (((In-keeps now infos a).0 u.0).0, u.1))

  newest_of_keeps :
      (tr : TimeRangeSecondsAgo) (s : SnapshotInfo)
      → In s keeps
      → time_is_within now tr s.timestamp_unix ≡ true
      → IsNewestTime now tr infos s.timestamp_unix
      → IsNewestTime now tr keeps s.timestamp_unix
  newest_of_keeps tr s m w o =
      ((s, (m, w), refl), λ a u. o.1 a (((In-keeps now infos a).0 u.0).0, u.1))

  kept_again : (s : SnapshotInfo) → In s keeps → is_kept now keeps s ≡ true
  kept_again s m = elim (is_kept-cases now infos s ((In-keeps now infos s).0 m).1) [
    | inl today ↦ is_kept_of_today now keeps s today
    | inr (tr, r, inl o) ↦
        is_kept_of_oldest now keeps s tr r
          (oldest_of_keeps tr s m (subst (λ t. time_is_within now tr t ≡ true) o.0.2 o.0.1.1) o)
    | inr (tr, r, inr o) ↦
        is_kept_of_newest now keeps s tr r
          (newest_of_keeps tr s m (subst (λ t. time_is_within now tr t ≡ true) o.0.2 o.0.1.1) o)
  ]

  -- At one time a second prune keeps all that the first kept.
  pub keeps-keeps : get_prune_keeps_list now keeps ≡ keeps
  keeps-keeps = keeps-eq-select now keeps ∙ select_self (is_kept now keeps) keeps kept_again
