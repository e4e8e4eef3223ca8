-- ===== src/Database/Journal/Rows.antt =====
-- The rows of the journal: keys, and the number of rows in each status.
use mathlib.Core.Path.{subst}
use tless.Prelude.{
  ℕ, suc, ◌+◌, ◌≤◌, ◌≡◌, refl, sym, ap, ◌≢◌, inl, inr, Bool, true, List, [], ◌∷◌, arith,
  if◌then◌else◌, Bool-cases, ◌==◌, nat_eq, ==_iff, ==_refl, length, All, All-In, In,
}
use tless.Database.{JournalStatus, unstarted, in_progress, finished, JournalRow, Tables}
use tless.Database.Journal.{is_status, same_status, update_row}
use tless.Database.Journal.Finish.{count_status}

abbrev pub DistinctIds : List JournalRow → Type 0
DistinctIds [] = Unit
DistinctIds (r ∷ rows) = All (λ (q : JournalRow). q.id ≢ r.id) rows × DistinctIds rows

-- The primary key of the journal: no id twice, and none above the last that was given out.
pub record IsKeyed (t : Tables) : Type 0 where
  pub distinct : DistinctIds t.backup_journal
  pub bounded : All (λ (r : JournalRow). r.id ≤ t.backup_journal_seq) t.backup_journal

pub status-eq : (s : JournalStatus) (r : JournalRow) → is_status s r ≡ true → r.status ≡ s
status-eq s r h = go s r.status h
  where
    go : (a b : JournalStatus) → same_status a b ≡ true → b ≡ a
    go unstarted unstarted h = refl
    go in_progress in_progress h = refl
    go finished finished h = refl
    go _ _ h = cc

abbrev pub one : Bool → ℕ
one b = if b then 1 else 0

-- A change that keeps ids.
abbrev pub KeepsId : (JournalRow → JournalRow) → Type 0
KeepsId f = (q : JournalRow) → (f q).id ≡ q.id

update_row_absent :
    (id : ℕ) (f : JournalRow → JournalRow) (rows : List JournalRow)
    → All (λ (q : JournalRow). q.id ≢ id) rows
    → update_row id f rows ≡ rows
unfolding update_row
update_row_absent id f [] h = refl
update_row_absent id f (r ∷ rows) h = ground (arith, update_row_absent id f rows h.1)

-- Changing the one row with an id moves one from the count of its old status to the new.
pub count_status-update_row :
    (s : JournalStatus) (f : JournalRow → JournalRow) (r : JournalRow) (rows : List JournalRow)
    → DistinctIds rows
    → In r rows
    → count_status s (update_row r.id f rows) + one (is_status s r)
      ≡ count_status s rows + one (is_status s (f r))
unfolding update_row
count_status-update_row s f r [] d m = elim m [ ]
count_status-update_row s f r (q ∷ rows) d (inl e) =
    subst
      (λ (x : JournalRow).
        count_status s (update_row x.id f (q ∷ rows)) + one (is_status s x)
        ≡ count_status s (q ∷ rows) + one (is_status s (f x)))
      (sym e) (rw (==_refl, update_row_absent q.id f rows d.0) (omega arith))
count_status-update_row s f r (q ∷ rows) d (inr m) =
    let other = All-In (λ (x : JournalRow). x.id ≢ q.id) rows d.0 m in
    let ih = count_status-update_row s f r rows d.1 m in
    elim (Bool-cases (q.id == r.id)) [
      | inl e ↦ absurd (other (sym ((==_iff q.id r.id).0 e)))
      | inr e ↦ rw e (omega arith)
    ]

pub In-update_row :
    (f : JournalRow → JournalRow) (r : JournalRow) (rows : List JournalRow)
    → In r rows
    → In (f r) (update_row r.id f rows)
unfolding update_row
In-update_row f r [] m = elim m [ ]
In-update_row f r (q ∷ rows) (inl e) =
    subst (λ (x : JournalRow). In (f x) (update_row x.id f (q ∷ rows))) (sym e)
      (rw ==_refl (inl refl))
In-update_row f r (q ∷ rows) (inr m) = inr (In-update_row f r rows m)

pub length-update_row :
    (id : ℕ) (f : JournalRow → JournalRow) (rows : List JournalRow)
    → length (update_row id f rows) ≡ length rows
unfolding update_row
length-update_row id f [] = refl
length-update_row id f (r ∷ rows) = ap suc (length-update_row id f rows)

-- A property of ids alone is kept.
All-update_row :
    (P : ℕ → Type 0) (id : ℕ) (f : JournalRow → JournalRow) (rows : List JournalRow)
    → KeepsId f
    → All (λ (q : JournalRow). P q.id) rows
    → All (λ (q : JournalRow). P q.id) (update_row id f rows)
unfolding update_row
All-update_row P id f [] k h = tt
All-update_row P id f (r ∷ rows) k h = elim (Bool-cases (r.id == id)) [
  | inl e ↦ rw e (subst P (sym (k r)) h.0, All-update_row P id f rows k h.1)
  | inr e ↦ rw e (h.0, All-update_row P id f rows k h.1)
]

DistinctIds-update_row :
    (id : ℕ) (f : JournalRow → JournalRow) (rows : List JournalRow)
    → KeepsId f
    → DistinctIds rows
    → DistinctIds (update_row id f rows)
unfolding update_row
DistinctIds-update_row id f [] k d = tt
DistinctIds-update_row id f (r ∷ rows) k d =
    let rest = DistinctIds-update_row id f rows k d.1 in
    elim (Bool-cases (r.id == id)) [
      | inl e ↦ rw e (All-update_row (λ i. i ≢ (f r).id) id f rows k (rw (k r) d.0), rest)
      | inr e ↦ rw e (All-update_row (λ i. i ≢ r.id) id f rows k d.0, rest)
    ]

-- A claim or a completion keeps the journal keyed.
pub update_row-IsKeyed :
    (id : ℕ) (f : JournalRow → JournalRow) (t : Tables)
    → KeepsId f
    → IsKeyed t
    → IsKeyed (record t { backup_journal = update_row id f t.backup_journal })
update_row-IsKeyed id f t k h = record {
  distinct = DistinctIds-update_row id f t.backup_journal k h.distinct;
  bounded = All-update_row (λ i. i ≤ t.backup_journal_seq) id f t.backup_journal k h.bounded;
}

-- The rows are those of the three statuses.
pub count_status_sum :
    (rows : List JournalRow)
    → count_status unstarted rows + count_status in_progress rows + count_status finished rows
      ≡ length rows
count_status_sum [] = omega arith
count_status_sum (r ∷ rows) = omega (arith, count_status_sum rows, one_status r.status)
  where
    one_status :
        (s : JournalStatus)
        → one (same_status unstarted s)
            + one (same_status in_progress s)
            + one (same_status finished s)
          ≡ 1
    one_status unstarted = omega arith
    one_status in_progress = omega arith
    one_status finished = omega arith
