-- ===== src/Backup/Play/Running.antt =====
-- The tasks in progress: the rows of the journal that the packer and the loop hold.
use mathlib.Core.Path.{subst}
use tless.Prelude.{
  ℕ, suc, ◌+◌, ◌≡◌, refl, sym, ap, ◌∙◌, ◌≢◌, inl, inr, List, [], ◌∷◌, ◌++◌, arith, Bool-cases, ◌==◌,
  nat_eq, ==_iff, length, length-append, All, All-In, In, Str, Option,
}
use tless.Database.{JournalStatus, unstarted, in_progress, finished, JournalRow}
use tless.Database.Journal.{update_row, set_status, same_status}
use tless.Database.Journal.Finish.{count_status, finish}
use tless.Database.Journal.Rows.{DistinctIds, count_status-update_row, In-update_row, one}

-- A row of the journal with the id is in progress.
abbrev pub IsHeld : List JournalRow → ℕ → Type 0
IsHeld rows id = (r : JournalRow) × In r rows × (r.id ≡ id) × (r.status ≡ in_progress)

abbrev Distinct : List ℕ → Type 0
Distinct [] = Unit
Distinct (id ∷ ids) = All (λ j. j ≢ id) ids × Distinct ids

-- The rows in progress are those with these ids, once each.
pub record IsRunning (ids : List ℕ) (rows : List JournalRow) : Type 0 where
  pub apart : Distinct ids
  pub held : All (IsHeld rows) ids
  pub counted : count_status in_progress rows ≡ length ids

All-snoc : (P : ℕ → Type 0) (xs : List ℕ) (y : ℕ) → All P xs → P y → All P (xs ++ (y ∷ []))
All-snoc P [] y h k = (k, tt)
All-snoc P (x ∷ xs) y h k = (h.0, All-snoc P xs y h.1 k)

All-unsnoc : (P : ℕ → Type 0) (xs : List ℕ) (y : ℕ) → All P (xs ++ (y ∷ [])) → All P xs × P y
All-unsnoc P [] y h = (tt, h.0)
All-unsnoc P (x ∷ xs) y h = let (a, b) = All-unsnoc P xs y h.1 in ((h.0, a), b)

Distinct-snoc :
    (xs : List ℕ) (y : ℕ) → All (λ j. j ≢ y) xs → Distinct xs → Distinct (xs ++ (y ∷ []))
Distinct-snoc [] y h d = (tt, tt)
Distinct-snoc (x ∷ xs) y h d =
    (All-snoc (λ j. j ≢ x) xs y d.0 (λ e. h.0 (sym e)), Distinct-snoc xs y h.1 d.1)

Distinct-unsnoc :
    (xs : List ℕ) (y : ℕ) → Distinct (xs ++ (y ∷ [])) → All (λ j. j ≢ y) xs × Distinct xs
Distinct-unsnoc [] y d = (tt, tt)
Distinct-unsnoc (x ∷ xs) y d =
    let (a, b) = All-unsnoc (λ j. j ≢ x) xs y d.0 in
    let (c, e) = Distinct-unsnoc xs y d.1 in ((λ p. b (sym p), c), (a, e))

-- The one in hand may stand first or last.
pub to_last :
    (x : ℕ) (ids : List ℕ) (rows : List JournalRow)
    → IsRunning (x ∷ ids) rows
    → IsRunning (ids ++ (x ∷ [])) rows
to_last x ids rows h = record {
  apart = Distinct-snoc ids x h.apart.0 h.apart.1;
  held = All-snoc (IsHeld rows) ids x h.held.1 h.held.0;
  counted = omega (arith, h.counted, length-append ids (x ∷ []));
}

pub to_first :
    (x : ℕ) (ids : List ℕ) (rows : List JournalRow)
    → IsRunning (ids ++ (x ∷ [])) rows
    → IsRunning (x ∷ ids) rows
to_first x ids rows h =
    let (a, b) = All-unsnoc (IsHeld rows) ids x h.held in
    record {
      apart = Distinct-unsnoc ids x h.apart;
      held = (b, a);
      counted = omega (arith, h.counted, length-append ids (x ∷ []));
    }

-- Two rows of a keyed journal with one id are one.
same_row :
    (q r : JournalRow) (rows : List JournalRow)
    → DistinctIds rows
    → In q rows
    → In r rows
    → q.id ≡ r.id
    → q ≡ r
same_row q r [] d m n e = elim m [ ]
same_row q r (x ∷ rows) d (inl a) (inl b) e = a ∙ sym b
same_row q r (x ∷ rows) d (inl a) (inr n) e =
    absurd (All-In (λ (y : JournalRow). y.id ≢ x.id) rows d.0 n (sym e ∙ ap (λ y. y.id) a))
same_row q r (x ∷ rows) d (inr m) (inl b) e =
    absurd (All-In (λ (y : JournalRow). y.id ≢ x.id) rows d.0 m (e ∙ ap (λ y. y.id) b))
same_row q r (x ∷ rows) d (inr m) (inr n) e = same_row q r rows d.1 m n e

In-update_other :
    (id : ℕ) (f : JournalRow → JournalRow) (q : JournalRow) (rows : List JournalRow)
    → q.id ≢ id
    → In q rows
    → In q (update_row id f rows)
unfolding update_row
In-update_other id f q [] n m = elim m [ ]
In-update_other id f q (r ∷ rows) n (inr m) = inr (In-update_other id f q rows n m)
In-update_other id f q (r ∷ rows) n (inl e) = elim (Bool-cases (r.id == id)) [
  | inl t ↦ absurd (n (ap (λ (x : JournalRow). x.id) e ∙ (==_iff r.id id).0 t))
  | inr t ↦ rw t (inl e)
]

-- A change of another row leaves those held.
All-held :
    (id : ℕ) (f : JournalRow → JournalRow) (rows : List JournalRow) (ids : List ℕ)
    → All (λ j. j ≢ id) ids
    → All (IsHeld rows) ids
    → All (IsHeld (update_row id f rows)) ids
All-held id f rows [] n h = tt
All-held id f rows (j ∷ ids) n ((r, m, e, s), h) =
    ((r, In-update_other id f r rows (λ p. n.0 (sym e ∙ p)) m, e, s), All-held id f rows ids n.1 h)

not_waiting :
    (r : JournalRow) (rows : List JournalRow) (ids : List ℕ)
    → DistinctIds rows
    → In r rows
    → r.status ≡ unstarted
    → All (IsHeld rows) ids
    → All (λ j. j ≢ r.id) ids
not_waiting r rows [] d m u h = tt
not_waiting r rows (j ∷ ids) d m u ((q, n, e, s), h) = (
  λ p.
      let same : q ≡ r = same_row q r rows d n m (e ∙ p) in
      let stuck : in_progress ≡ unstarted = sym s ∙ ap (λ (x : JournalRow). x.status) same ∙ u in
      cc stuck,
  not_waiting r rows ids d m u h,
)

-- A row goes from one status to another: the counts of the two.
pub count_moved :
    (s a : JournalStatus) (f : JournalRow → JournalRow) (r : JournalRow) (rows : List JournalRow)
    → DistinctIds rows
    → In r rows
    → r.status ≡ a
    → count_status s (update_row r.id f rows) + one (same_status s a)
      ≡ count_status s rows + one (same_status s (f r).status)
count_moved s a f r rows d m e =
    subst
      (λ x.
        count_status s (update_row r.id f rows) + one (same_status s x)
        ≡ count_status s rows + one (same_status s (f r).status))
      e (count_status-update_row s f r rows d m)

-- A claimed row is held.
pub claim-IsRunning :
    (r : JournalRow) (ids : List ℕ) (rows : List JournalRow)
    → DistinctIds rows
    → In r rows
    → r.status ≡ unstarted
    → IsRunning ids rows
    → IsRunning (r.id ∷ ids) (update_row r.id (set_status in_progress) rows)
claim-IsRunning r ids rows d m u h =
    let n = not_waiting r rows ids d m u h.held in
    let c = count_moved in_progress unstarted (set_status in_progress) r rows d m u in
    record {
      apart = (n, h.apart);
      held = (
        (set_status in_progress r, In-update_row (set_status in_progress) r rows m, refl, refl),
        All-held r.id (set_status in_progress) rows ids n h.held,
      );
      counted = omega (arith, c, h.counted);
    }

-- A finished row is held no more.
pub finish-IsRunning :
    (id : ℕ) (entry : Option Str) (ids : List ℕ) (rows : List JournalRow)
    → DistinctIds rows
    → IsRunning (id ∷ ids) rows
    → IsRunning ids (update_row id (finish entry) rows)
      × (count_status unstarted (update_row id (finish entry) rows) ≡ count_status unstarted rows)
      × (count_status finished (update_row id (finish entry) rows)
          ≡ suc (count_status finished rows))
finish-IsRunning id entry ids rows d h =
    let ((r, m, e, s), held) = h.held in
    let running = All-held id (finish entry) rows ids h.apart.0 held in
    subst
      (λ i.
        All (IsHeld (update_row i (finish entry) rows)) ids
        → IsRunning ids (update_row i (finish entry) rows)
          × (count_status unstarted (update_row i (finish entry) rows)
              ≡ count_status unstarted rows)
          × (count_status finished (update_row i (finish entry) rows)
              ≡ suc (count_status finished rows)))
      e
      (λ k. (
        record {
          apart = h.apart.1;
          held = k;
          counted =
              omega
                (arith, count_moved in_progress in_progress (finish entry) r rows d m s, h.counted);
        },
        omega (arith, count_moved unstarted in_progress (finish entry) r rows d m s),
        omega (arith, count_moved finished in_progress (finish entry) r rows d m s),
      ))
      running
