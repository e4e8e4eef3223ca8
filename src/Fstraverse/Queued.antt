-- ===== src/Fstraverse/Queued.antt =====
-- A walk without database errors queues every entry that it finds.
use tless.Prelude.{
  ℕ, ◌≡◌, ◌≢◌, refl, ◌⊎◌, inl, inr, Str, Bool, true, false, ◌||◌, Option, none, some, List, [],
  if◌then◌else◌, ◌==◌, str_eq, Bool-cases, In, ◌↔◌, ap, sym, ◌∙◌, ◌∷◌, All,
}
use tless.Database.{Tables, quiet, RowOrder, DirEntRow, Db}
use tless.Database.DirEnts.{has_dir_ent}
use tless.Cryptography.{Outcome, done}
use tless.Backup.Entry.{FileInfo, is_filtered}
use tless.Fstraverse.Excludes.{Globs, is_excluded}
use tless.Fstraverse.{
  Visit, unreadable, found, Walk, Verdict, goes_on, is_skip_dir, relativize_path, visit_entry,
  visit, after_visit, walk_dir,
}
use tless.Fstraverse.Walked.{
  SameWork, Only, noted, IsWalked, chained, same-IsWalked, noted-IsWalked,
}

-- Not canceled, and not without an entry.
abbrev pub IsUndisturbed : Visit → Type 0
IsUndisturbed (unreadable path entry) = entry ≢ none
IsUndisturbed (found path timed info canceled) = canceled ≡ false

abbrev GoesOn : Verdict → Type 0
GoesOn verdict = (verdict ≡ goes_on) ⊎ (verdict ≡ is_skip_dir)

module _ (W : Globs) (root_path root_dir_name : Str) (excludes : List Str) where
  abbrev is_left_out : Str → Bool
  is_left_out path =
      is_excluded W path excludes
      || (path == root_path
          || (relativize_path path root_path == root_path || relativize_path path root_path == []))

  abbrev entry_found : Bool → Str → Option FileInfo → Option FileInfo → Option (Str × ℕ)
  entry_found true rel_path timed info = none
  entry_found false rel_path none info = none
  entry_found false rel_path (some timed) none = none
  entry_found false rel_path (some timed) (some info) =
      if is_filtered info then none else some (rel_path, timed.mod_time)

  -- The path and the time of the file, link or directory below the root that a visit finds, if it is
  -- not excluded.
  abbrev pub entry_of : Visit → Option (Str × ℕ)
  entry_of (unreadable path entry) = none
  entry_of (found path timed info canceled) =
      entry_found (is_left_out path) (relativize_path path root_path) timed info

  -- One of the visits finds the entry.
  abbrev pub IsFound : Str → ℕ → List Visit → Type 0
  IsFound rel_path mtime visits = (v : Visit) × In v visits × (entry_of v ≡ some (rel_path, mtime))

  module _ (order : RowOrder DirEntRow) (t : Tables) where
    -- What a visit does, but for the events.
    abbrev IsNoted : Visit → Walk → Outcome Verdict × (Walk × Db) → Type 0
    IsNoted v w r =
        (verdict : Verdict) × (w' : Walk) × (r ≡ (done verdict, (w', quiet t)))
        × GoesOn verdict
        × SameWork (noted root_dir_name order t (entry_of v) w) w'

    entry-noted :
        (rel_path : Str) (timed info : Option FileInfo) (w : Walk)
        → visit_entry W order root_path root_dir_name excludes rel_path timed info false w (quiet t)
          ≡ (
            done goes_on,
            (noted root_dir_name order t (entry_found false rel_path timed info) w, quiet t),
          )
    unfolding visit_entry has_dir_ent
    entry-noted rel_path none info w = refl
    entry-noted rel_path (some timed) none w = refl
    entry-noted rel_path (some timed) (some info) w = elim (Bool-cases (is_filtered info)) [
      | inl e ↦ rw (visit_entry, e) refl
      | inr e ↦ rw (visit_entry, e) refl
    ]

    unread :
        (path : Str) (dir out : Bool) (w : Walk)
        → is_excluded W path excludes ≡ out
        → IsNoted (unreadable path (some dir)) w (
            visit W order root_path root_dir_name excludes (unreadable path (some dir)) w (quiet t))
    unfolding visit
    unread path dir true w e = rw (visit, e) (goes_on, w, refl, inl refl, (refl, refl, refl))
    unread path true false w e = rw (visit, e) (is_skip_dir, _, refl, inr refl, (refl, refl, refl))
    unread path false false w e = rw (visit, e) (is_skip_dir, w, refl, inr refl, (refl, refl, refl))

    seen :
        (path : Str) (timed info : Option FileInfo) (out : Bool) (w : Walk)
        → is_left_out path ≡ out
        → IsNoted (found path timed info false) w (
            visit W order root_path root_dir_name excludes
              (found path timed info false)
              w
              (quiet t))
    unfolding visit
    seen path timed info true w e = rw (visit, e) (goes_on, w, refl, inl refl, (refl, refl, refl))
    seen path timed info false w e =
        rw (visit, e)
          (
            goes_on,
            noted root_dir_name order t
                (entry_found false (relativize_path path root_path) timed info) w,
            entry-noted (relativize_path path root_path) timed info w,
            inl refl,
            (refl, refl, refl),
          )

    visit-IsNoted :
        (v : Visit) (w : Walk)
        → IsUndisturbed v
        → IsNoted v w (visit W order root_path root_dir_name excludes v w (quiet t))
    visit-IsNoted (unreadable path none) w n = absurd (n refl)
    visit-IsNoted (unreadable path (some dir)) w n =
        unread path dir (is_excluded W path excludes) w refl
    visit-IsNoted (found path timed info true) w n = cc n
    visit-IsNoted (found path timed info false) w n = seen path timed info (is_left_out path) w refl

    nothing-IsWalked : (w : Walk) → IsWalked root_dir_name order t (λ r m. IsFound r m []) w w
    nothing-IsWalked w = record {
      queue_stays = λ x h. h;
      inserts_stay = λ x h. h;
      queued = λ r m l i f g. elim f.1 [ ];
      inserted = λ r m f g. elim f.1 [ ];
      not_found = λ p h. (h, λ r m f. elim f.1 [ ]);
      left = λ p h n. h;
    }

    first_or_later :
        (v : Visit) (visits : List Visit) (r : Str) (m : ℕ)
        → IsFound r m (v ∷ visits) ↔ (Only (entry_of v) r m ⊎ IsFound r m visits)
    first_or_later v visits r m = (
      λ (u, there, e). elim there [ inl p ↦ inl (ap entry_of (sym p) ∙ e) | inr q ↦ inr (u, q, e) ],
      λ h. elim h [ inl e ↦ (v, inl refl, e) | inr (u, q, e) ↦ (u, inr q, e) ],
    )

    abbrev walk : List Visit → Walk → Db → Outcome Verdict × (Walk × Db)
    walk = walk_dir W order root_path root_dir_name excludes

    on_after :
        (visits : List Visit) (verdict : Verdict) (w : Walk)
        → GoesOn verdict
        → after_visit W order root_path root_dir_name excludes
            (walk visits)
            (done verdict, (w, quiet t))
          ≡ walk visits w (quiet t)
    on_after visits verdict w (inl e) = rw e refl
    on_after visits verdict w (inr e) = rw e refl

    -- A walk without database errors, without a cancelation and over a directory that is there: each
    -- entry that it finds below the root and that is not excluded is in the queue, if the database
    -- knows it, as updated where its time is later than its last backup and else as unchanged; if
    -- the database does not know it, it is among the entries to insert. What was queued or to be
    -- inserted before stays so. Of the known paths those are left that belong to no such entry.
    pub walk_dir_lem :
        (visits : List Visit) (w : Walk)
        → All IsUndisturbed visits
        → (w' : Walk) × (walk_dir W order root_path root_dir_name excludes visits w (quiet t)
            ≡ (done goes_on, (w', quiet t)))
          × IsWalked root_dir_name order t (λ r m. IsFound r m visits) w w'
    unfolding walk_dir
    walk_dir_lem [] w n = (w, refl, nothing-IsWalked w)
    walk_dir_lem (v ∷ visits) w (n, ns) =
        let (verdict, w1, e, on, same) = visit-IsNoted v w n in
        let (w2, e2, walked) = walk_dir_lem visits w1 ns in
        let first =
          same-IsWalked root_dir_name order t (Only (entry_of v)) w
            (noted root_dir_name order t (entry_of v) w) w1
            (noted-IsWalked root_dir_name order t (entry_of v) w) same in
        (
          w2,
          ap (after_visit W order root_path root_dir_name excludes (walk visits)) e
              ∙ on_after visits verdict w1 on
              ∙ e2,
          chained root_dir_name order t (Only (entry_of v)) (λ r m. IsFound r m visits)
              (λ r m. IsFound r m (v ∷ visits)) w w1 w2 first walked (first_or_later v visits),
        )
