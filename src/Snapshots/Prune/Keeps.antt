-- ===== src/Snapshots/Prune/Keeps.antt =====
-- What `GetPruneKeepsList` keeps, as one test for each snapshot.
use mathlib.Core.List.{append-nil}
use mathlib.Core.Path.{subst}
use tless.Prelude.{
  ℕ, ◌≤◌, ◌≡◌, refl, sym, ◌↔◌, inl, inr, Bool, true, false, ◌||◌, List, [], ◌∷◌, ◌++◌, arith,
  if◌then◌else◌, Bool-cases, All, In, In-select, select, append-cons, ◌⊎◌,
}
use tless.Snapshots.{SnapshotInfo}
use tless.Snapshots.Prune.{
  TimeRangeSecondsAgo, time_is_within, is_oldest_within, is_newest_within, keep_everything,
  keep_oldest_newest, keep_in_ranges, collect_keeps, get_prune_keeps_list,
}
use tless.Snapshots.Prune.Within.{
  IsOldestTime, IsNewestTime, is_oldest_within_iff, is_newest_within_iff,
}

module _ (now : ℕ) (infos : List SnapshotInfo) where
  -- The snapshot is at an end of the range.
  pub at_end : TimeRangeSecondsAgo → SnapshotInfo → Bool
  at_end tr ss =
      is_oldest_within now tr ss.timestamp_unix infos
      || is_newest_within now tr ss.timestamp_unix infos

  pub at_some_end : List TimeRangeSecondsAgo → SnapshotInfo → Bool
  at_some_end [] ss = false
  at_some_end (tr ∷ ranges) ss = at_end tr ss || at_some_end ranges ss

  pub is_kept : SnapshotInfo → Bool
  unfolding at_end at_some_end
  is_kept ss =
      time_is_within now keep_everything ss.timestamp_unix || at_some_end keep_oldest_newest ss

  at_end-within :
      (tr : TimeRangeSecondsAgo) (ss : SnapshotInfo)
      → at_end tr ss ≡ true
      → time_is_within now tr ss.timestamp_unix ≡ true
  unfolding at_end
  at_end-within tr ss h = elim (Bool-cases (is_oldest_within now tr ss.timestamp_unix infos)) [
    | inl e ↦
        let o = (is_oldest_within_iff now tr infos ss.timestamp_unix).0 e in
        subst (λ t. time_is_within now tr t ≡ true) o.0.2 o.0.1.1
    | inr e ↦
        let o = (is_newest_within_iff now tr infos ss.timestamp_unix).0 (ground arith) in
        subst (λ t. time_is_within now tr t ≡ true) o.0.2 o.0.1.1
  ]

  -- Every later range begins, counted back from now, where this one ends or before that.
  abbrev AreApart : List TimeRangeSecondsAgo → Type 0
  AreApart [] = Unit
  AreApart (tr ∷ ranges) = All (λ r. tr.back_to ≤ r.from) ranges × AreApart ranges

  at_some_end_apart :
      (tr : TimeRangeSecondsAgo) (ss : SnapshotInfo) (ranges : List TimeRangeSecondsAgo)
      → All (λ r. tr.back_to ≤ r.from) ranges
      → at_end tr ss ≡ true
      → at_some_end ranges ss ≡ false
  unfolding at_some_end time_is_within
  at_some_end_apart tr ss [] apart h = refl
  at_some_end_apart tr ss (r ∷ ranges) apart h =
      ground
        (arith, at_end-within tr ss h, at_end-within r ss, at_some_end_apart tr ss ranges apart.1 h)

  keep_in_ranges_none :
      (ss : SnapshotInfo) (ranges : List TimeRangeSecondsAgo) (keeps : List SnapshotInfo)
      → at_some_end ranges ss ≡ false
      → keep_in_ranges now infos ss ranges keeps ≡ keeps
  unfolding keep_in_ranges at_some_end at_end
  keep_in_ranges_none ss [] keeps h = refl
  keep_in_ranges_none ss (tr ∷ ranges) keeps h = ground (arith, keep_in_ranges_none ss ranges keeps)

  -- At most one of the ranges adds the snapshot, since they do not meet.
  keep_in_ranges-at_some_end :
      (ss : SnapshotInfo) (ranges : List TimeRangeSecondsAgo) (keeps : List SnapshotInfo)
      → AreApart ranges
      → keep_in_ranges now infos ss ranges keeps
        ≡ (if at_some_end ranges ss then keeps ++ (ss ∷ []) else keeps)
  unfolding keep_in_ranges at_some_end at_end
  keep_in_ranges-at_some_end ss [] keeps h = refl
  keep_in_ranges-at_some_end ss (tr ∷ ranges) keeps (apart, h) = ground (
    arith,
    at_some_end_apart tr ss ranges apart,
    keep_in_ranges_none ss ranges (keeps ++ (ss ∷ [])),
    keep_in_ranges-at_some_end ss ranges keeps h,
  )

  keep_one :
      (ss : SnapshotInfo) (keeps : List SnapshotInfo)
      → (if time_is_within now keep_everything ss.timestamp_unix
          then keeps ++ (ss ∷ [])
          else keep_in_ranges now infos ss keep_oldest_newest keeps)
        ≡ (if is_kept ss then keeps ++ (ss ∷ []) else keeps)
  unfolding is_kept
  keep_one ss keeps =
      rw (keep_in_ranges-at_some_end ss keep_oldest_newest keeps (omega arith)) (ground arith)

  collect_keeps-select :
      (rest keeps : List SnapshotInfo)
      → collect_keeps now infos rest keeps ≡ keeps ++ select is_kept rest
  unfolding collect_keeps select
  collect_keeps-select [] keeps = sym (append-nil keeps)
  collect_keeps-select (ss ∷ rest) keeps =
      rw (keep_one, collect_keeps-select rest)
        (elim (Bool-cases (is_kept ss)) [ inl e ↦ rw (e, append-cons) | inr e ↦ rw e ])

module _ (now : ℕ) (infos : List SnapshotInfo) (s : SnapshotInfo) where
  at_some_end_of :
      (tr : TimeRangeSecondsAgo) (ranges : List TimeRangeSecondsAgo)
      → In tr ranges
      → at_end now infos tr s ≡ true
      → at_some_end now infos ranges s ≡ true
  unfolding at_some_end
  at_some_end_of tr [] m h = elim m [ ]
  at_some_end_of tr (r ∷ ranges) (inl e) h =
      let h' = subst (λ k. at_end now infos k s ≡ true) e h in ground arith
  at_some_end_of tr (r ∷ ranges) (inr m) h = ground (arith, at_some_end_of tr ranges m h)

  pub is_kept_of_oldest :
      (tr : TimeRangeSecondsAgo)
      → In tr keep_oldest_newest
      → IsOldestTime now tr infos s.timestamp_unix
      → is_kept now infos s ≡ true
  unfolding is_kept at_end
  is_kept_of_oldest tr r o =
      let h = (is_oldest_within_iff now tr infos s.timestamp_unix).1 o in
      ground (arith, at_some_end_of tr keep_oldest_newest r)

  pub is_kept_of_newest :
      (tr : TimeRangeSecondsAgo)
      → In tr keep_oldest_newest
      → IsNewestTime now tr infos s.timestamp_unix
      → is_kept now infos s ≡ true
  unfolding is_kept at_end
  is_kept_of_newest tr r o =
      let h = (is_newest_within_iff now tr infos s.timestamp_unix).1 o in
      ground (arith, at_some_end_of tr keep_oldest_newest r)

  pub is_kept_of_today :
      time_is_within now keep_everything s.timestamp_unix ≡ true → is_kept now infos s ≡ true
  unfolding is_kept
  is_kept_of_today h = ground arith

  at_some_end-cases :
      (ranges : List TimeRangeSecondsAgo)
      → at_some_end now infos ranges s ≡ true
      → (tr : TimeRangeSecondsAgo) × In tr ranges
        × (IsOldestTime now tr infos s.timestamp_unix ⊎ IsNewestTime now tr infos s.timestamp_unix)
  unfolding at_some_end at_end
  at_some_end-cases [] h = cc
  at_some_end-cases (tr ∷ ranges) h =
      elim (Bool-cases (is_oldest_within now tr s.timestamp_unix infos)) [
        | inl e ↦ (tr, inl refl, inl ((is_oldest_within_iff now tr infos _).0 e))
        | inr e ↦ elim (Bool-cases (is_newest_within now tr s.timestamp_unix infos)) [
          | inl f ↦ (tr, inl refl, inr ((is_newest_within_iff now tr infos _).0 f))
          | inr f ↦ let (r, m, o) = at_some_end-cases ranges (ground arith) in (r, inr m, o)
        ]
      ]

  pub is_kept-cases :
      is_kept now infos s ≡ true
      → (time_is_within now keep_everything s.timestamp_unix ≡ true)
        ⊎ ((tr : TimeRangeSecondsAgo) × In tr keep_oldest_newest
            × (IsOldestTime now tr infos s.timestamp_unix
                ⊎ IsNewestTime now tr infos s.timestamp_unix))
  unfolding is_kept
  is_kept-cases h = elim (Bool-cases (time_is_within now keep_everything s.timestamp_unix)) [
    | inl e ↦ inl e
    | inr e ↦ inr (at_some_end-cases keep_oldest_newest (ground arith))
  ]

-- The list of keeps is the snapshots that pass the test, each once and in their order.
pub keeps-eq-select :
    (now : ℕ) (infos : List SnapshotInfo)
    → get_prune_keeps_list now infos ≡ select (is_kept now infos) infos
unfolding get_prune_keeps_list
keeps-eq-select now infos = collect_keeps-select now infos infos []

-- A snapshot is kept exactly if it was given and passes the test.
pub In-keeps :
    (now : ℕ) (infos : List SnapshotInfo) (s : SnapshotInfo)
    → In s (get_prune_keeps_list now infos) ↔ (In s infos × (is_kept now infos s ≡ true))
In-keeps now infos s = rw keeps-eq-select (In-select (is_kept now infos) s infos)
