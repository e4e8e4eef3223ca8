-- ===== src/Snapshots/Prune/Within.antt =====
-- `IsOldestWithin` and `IsNewestWithin` find the ends of a range.
use mathlib.Core.Path.{subst}
use tless.Prelude.{
  ℕ, ◌≤◌, ◌≡◌, refl, ◌↔◌, inl, inr, true, false, List, [], ◌∷◌, arith, ◌==◌, nat_eq, ==_iff, In,
  All-In, In-select, last, In-last,
}
use tless.Prelude.Sort.{In-sort, IsSorted, sort-IsSorted, le-last}
use tless.Snapshots.{SnapshotInfo}
use tless.Snapshots.Prune.{
  TimeRangeSecondsAgo, time_is_within, get_ordered_slice_within, is_oldest_within, is_newest_within,
}

module _ (now : ℕ) (tr : TimeRangeSecondsAgo) (infos : List SnapshotInfo) where
  -- A snapshot of the set that lies in the range.
  abbrev pub IsWithin : SnapshotInfo → Type 0
  IsWithin s = In s infos × (time_is_within now tr s.timestamp_unix ≡ true)

  -- Some snapshot in the range has the time, and none in the range is earlier.
  abbrev pub IsOldestTime : ℕ → Type 0
  IsOldestTime t =
      ((s : SnapshotInfo) × IsWithin s × (s.timestamp_unix ≡ t))
      × ((s : SnapshotInfo) → IsWithin s → t ≤ s.timestamp_unix)

  abbrev pub IsNewestTime : ℕ → Type 0
  IsNewestTime t =
      ((s : SnapshotInfo) × IsWithin s × (s.timestamp_unix ≡ t))
      × ((s : SnapshotInfo) → IsWithin s → s.timestamp_unix ≤ t)

  abbrev slice : List SnapshotInfo
  slice = get_ordered_slice_within now tr infos

  In-slice : (s : SnapshotInfo) → In s slice ↔ IsWithin s
  unfolding get_ordered_slice_within
  In-slice s =
      let (f, g) = In-sort (λ ssi. ssi.timestamp_unix) s _ in
      let (h, k) = In-select (λ ssi. time_is_within now tr ssi.timestamp_unix) s infos in
      (λ m. h (f m), λ w. g (k w))

  slice-IsSorted : IsSorted (λ ssi. ssi.timestamp_unix) slice
  unfolding get_ordered_slice_within
  slice-IsSorted = sort-IsSorted (λ ssi. ssi.timestamp_unix) _

  head-le :
      (x s : SnapshotInfo) (xs : List SnapshotInfo)
      → IsSorted (λ ssi. ssi.timestamp_unix) (x ∷ xs)
      → In s (x ∷ xs)
      → x.timestamp_unix ≤ s.timestamp_unix
  head-le x s xs o (inl e) = ground arith
  head-le x s xs o (inr m) = All-In (λ y. x.timestamp_unix ≤ y.timestamp_unix) xs o.0 m

  -- A time is the oldest in the range exactly when a snapshot there has it and none is earlier.
  pub is_oldest_within_iff : (t : ℕ) → (is_oldest_within now tr t infos ≡ true) ↔ IsOldestTime t
  unfolding is_oldest_within
  is_oldest_within_iff t = go slice slice-IsSorted In-slice
    where
      go :
          (l : List SnapshotInfo)
          → IsSorted (λ ssi. ssi.timestamp_unix) l
          → ((s : SnapshotInfo) → In s l ↔ IsWithin s)
          → ((elim l [ [] ↦ false | oldest ∷ _ ↦ oldest.timestamp_unix == t ]) ≡ true)
            ↔ IsOldestTime t
      go [] o same = (λ h. cc, λ h. elim ((same (h.0.0)).1 h.0.1) [ ])
      go (x ∷ xs) o same = (
        λ h.
            let e = (==_iff x.timestamp_unix t).0 h in
            (
              (x, (same x).0 (inl refl), e),
              λ s w. subst (λ k. k ≤ s.timestamp_unix) e (head-le x s xs o ((same s).1 w)),
            ),
        λ h.
            let w = (same x).0 (inl refl) in
            let le = h.1 x w in
            let ge = head-le x h.0.0 xs o ((same h.0.0).1 h.0.1) in
            (==_iff x.timestamp_unix t).1 (omega (arith, h.0.2)),
      )

  -- A time is the newest in the range exactly when a snapshot there has it and none is later.
  pub is_newest_within_iff : (t : ℕ) → (is_newest_within now tr t infos ≡ true) ↔ IsNewestTime t
  unfolding is_newest_within
  is_newest_within_iff t = go slice slice-IsSorted In-slice
    where
      go :
          (l : List SnapshotInfo)
          → IsSorted (λ ssi. ssi.timestamp_unix) l
          → ((s : SnapshotInfo) → In s l ↔ IsWithin s)
          → ((elim l [ [] ↦ false | x ∷ xs ↦ (last x xs).timestamp_unix == t ]) ≡ true)
            ↔ IsNewestTime t
      go [] o same = (λ h. cc, λ h. elim ((same (h.0.0)).1 h.0.1) [ ])
      go (x ∷ xs) o same =
          let w = (same (last x xs)).0 (In-last x xs) in
          (
            λ h.
                let e = (==_iff (last x xs).timestamp_unix t).0 h in
                (
                  (last x xs, w, e),
                  λ s v.
                      subst (λ k. s.timestamp_unix ≤ k) e
                        (le-last (λ ssi. ssi.timestamp_unix) x s xs o ((same s).1 v)),
                ),
            λ h.
                let le = h.1 (last x xs) w in
                let ge = le-last (λ ssi. ssi.timestamp_unix) x h.0.0 xs o ((same h.0.0).1 h.0.1) in
                (==_iff (last x xs).timestamp_unix t).1 (omega (arith, h.0.2)),
          )

  -- Where a snapshot lies in the range, one of the set is an oldest there, and one a newest.
  pub oldest_exists :
      (s : SnapshotInfo)
      → IsWithin s
      → (a : SnapshotInfo) × IsWithin a × IsOldestTime a.timestamp_unix
  oldest_exists s w = go slice slice-IsSorted In-slice
    where
      go :
          (l : List SnapshotInfo)
          → IsSorted (λ ssi. ssi.timestamp_unix) l
          → ((s : SnapshotInfo) → In s l ↔ IsWithin s)
          → (a : SnapshotInfo) × IsWithin a × IsOldestTime a.timestamp_unix
      go [] o same = elim ((same s).1 w) [ ]
      go (x ∷ xs) o same =
          let v = (same x).0 (inl refl) in
          (x, v, ((x, v, refl), λ b u. head-le x b xs o ((same b).1 u)))

  pub newest_exists :
      (s : SnapshotInfo)
      → IsWithin s
      → (b : SnapshotInfo) × IsWithin b × IsNewestTime b.timestamp_unix
  newest_exists s w = go slice slice-IsSorted In-slice
    where
      go :
          (l : List SnapshotInfo)
          → IsSorted (λ ssi. ssi.timestamp_unix) l
          → ((s : SnapshotInfo) → In s l ↔ IsWithin s)
          → (b : SnapshotInfo) × IsWithin b × IsNewestTime b.timestamp_unix
      go [] o same = elim ((same s).1 w) [ ]
      go (x ∷ xs) o same =
          let v = (same (last x xs)).0 (In-last x xs) in
          (
            last x xs,
            v,
            (
              (last x xs, v, refl),
              λ a u. le-last (λ ssi. ssi.timestamp_unix) x a xs o ((same a).1 u),
            ),
          )
