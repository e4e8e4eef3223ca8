-- ===== src/Fstraverse/Walked.antt =====
-- What a walk makes of the queue, the entries to insert and the known paths.
use mathlib.Core.Path.{subst}
use tless.Backup.Journaled.Filled.{In-append_left, In-append_last}
use tless.Prelude.{
  ℕ, ◌≡◌, ◌≢◌, refl, ◌⊎◌, inl, inr, Str, true, Option, none, some, [], ◌==◌, str_eq, select, In,
  ◌↔◌, In-select, ap, sym, ◌∙◌, ◌++◌, not, arith, ◌∷◌,
}
use tless.Database.{Tables, RowOrder, DirEntRow, ChangeType}
use tless.Database.DirEnts.{has_dir_ent, at_path}
use tless.Database.DirEnts
use tless.Fstraverse.{Walk, change_of, record_entry, forget, known_path}

-- The same entries are known, queued and to be inserted.
abbrev pub SameWork : Walk → Walk → Type 0
SameWork w w' =
    (w'.known_paths ≡ w.known_paths)
    × (w'.queue ≡ w.queue)
    × (w'.pending_dir_entry_inserts ≡ w.pending_dir_entry_inserts)

abbrev pub Only : Option (Str × ℕ) → Str → ℕ → Type 0
Only o r m = o ≡ some (r, m)

not_same : (p q : Str) → not (p == q) ≡ true → p ≢ q
not_same p q h e = ground arith

is_other : (p q : Str) → p ≢ q → not (p == q) ≡ true
is_other p q n = ground arith

module _ (root_dir_name : Str) (order : RowOrder DirEntRow) (t : Tables) where
  -- The last backup and the id that the database has for the entry.
  abbrev pub known : Str → Option (ℕ × ℕ)
  known rel_path = DirEnts.found (order.first (select (at_path root_dir_name rel_path) t.dirents))

  abbrev pub noted : Option (Str × ℕ) → Walk → Walk
  noted none w = w
  noted (some (rel_path, mtime)) w =
      record_entry root_dir_name rel_path mtime (known rel_path)
        (forget (known_path root_dir_name rel_path) w)

  -- What a walk that finds the entries of `F` makes of `w`. Each is queued, with its kind of change,
  -- if the database knows it, else it is to be inserted; what was queued or to be inserted stays so;
  -- and the known paths that are left are those of no entry.
  pub record IsWalked (F : Str → ℕ → Type 0) (w w' : Walk) : Type 0 where
    pub queue_stays : (x : ℕ × ChangeType) → In x w.queue → In x w'.queue
    pub inserts_stay :
        (x : Str × Str) → In x w.pending_dir_entry_inserts → In x w'.pending_dir_entry_inserts
    pub queued :
        (rel_path : Str) (mtime last_backup id : ℕ)
        → F rel_path mtime
        → known rel_path ≡ some (last_backup, id)
        → In (id, change_of mtime last_backup) w'.queue
    pub inserted :
        (rel_path : Str) (mtime : ℕ)
        → F rel_path mtime
        → known rel_path ≡ none
        → In (root_dir_name, rel_path) w'.pending_dir_entry_inserts
    pub not_found :
        (p : Str)
        → In p w'.known_paths
        → In p w.known_paths
          × ((rel_path : Str) (mtime : ℕ)
              → F rel_path mtime
              → p ≢ known_path root_dir_name rel_path)
    pub left :
        (p : Str)
        → In p w.known_paths
        → ((rel_path : Str) (mtime : ℕ) → F rel_path mtime → p ≢ known_path root_dir_name rel_path)
        → In p w'.known_paths

  pub chained :
      (F G K : Str → ℕ → Type 0) (w1 w2 w3 : Walk)
      → IsWalked F w1 w2
      → IsWalked G w2 w3
      → ((r : Str) (m : ℕ) → K r m ↔ (F r m ⊎ G r m))
      → IsWalked K w1 w3
  chained F G K w1 w2 w3 a b k = record {
    queue_stays = λ x h. b.queue_stays x (a.queue_stays x h);
    inserts_stay = λ x h. b.inserts_stay x (a.inserts_stay x h);
    queued = λ r m l i h e. elim ((k r m).0 h) [
      | inl f ↦ b.queue_stays _ (a.queued r m l i f e)
      | inr g ↦ b.queued r m l i g e
    ];
    inserted = λ r m h e. elim ((k r m).0 h) [
      | inl f ↦ b.inserts_stay _ (a.inserted r m f e)
      | inr g ↦ b.inserted r m g e
    ];
    not_found = λ p h.
        let (h2, n2) = b.not_found p h in
        let (h1, n1) = a.not_found p h2 in
        (h1, λ r m f. elim ((k r m).0 f) [ inl g ↦ n1 r m g | inr g ↦ n2 r m g ]);
    left = λ p h n.
        b.left p (a.left p h (λ r m f. n r m ((k r m).1 (inl f))))
          (λ r m g. n r m ((k r m).1 (inr g)));
  }

  pub same-IsWalked :
      (F : Str → ℕ → Type 0) (w a b : Walk) → IsWalked F w a → SameWork a b → IsWalked F w b
  same-IsWalked F w a b h (k, q, i) = record {
    queue_stays = λ x m. subst (In x) (sym q) (h.queue_stays x m);
    inserts_stay = λ x m. subst (In x) (sym i) (h.inserts_stay x m);
    queued = λ r m l id f e. subst (In (id, change_of m l)) (sym q) (h.queued r m l id f e);
    inserted = λ r m f e. subst (In (root_dir_name, r)) (sym i) (h.inserted r m f e);
    not_found = λ p m. h.not_found p (subst (In p) k m);
    left = λ p m n. subst (In p) (sym k) (h.left p m n);
  }

  forgotten :
      (r0 : Str) (m0 : ℕ) (w : Walk) (p : Str)
      → In p (forget (known_path root_dir_name r0) w).known_paths
      → In p w.known_paths
        × ((r : Str) (m : ℕ) → Only (some (r0, m0)) r m → p ≢ known_path root_dir_name r)
  forgotten r0 m0 w p h =
      let (there, other) =
        (In-select (λ x. not (x == known_path root_dir_name r0)) p w.known_paths).0 h in
      (
        there,
        λ r m e.
            let same : r0 ≡ r = cc e in
            subst (λ x. p ≢ known_path root_dir_name x) same (not_same p _ other),
      )

  remembered :
      (r0 : Str) (m0 : ℕ) (w : Walk) (p : Str)
      → In p w.known_paths
      → ((r : Str) (m : ℕ) → Only (some (r0, m0)) r m → p ≢ known_path root_dir_name r)
      → In p (forget (known_path root_dir_name r0) w).known_paths
  remembered r0 m0 w p h n =
      (In-select (λ x. not (x == known_path root_dir_name r0)) p w.known_paths).1
        (h, is_other p _ (n r0 m0 refl))

  recorded :
      (r0 : Str) (m0 : ℕ) (k : Option (ℕ × ℕ)) (w : Walk)
      → known r0 ≡ k
      → IsWalked
          (Only (some (r0, m0)))
          w
          (record_entry root_dir_name r0 m0 k (forget (known_path root_dir_name r0) w))
  recorded r0 m0 none w e = record {
    queue_stays = λ x h. h;
    inserts_stay = λ x h. In-append_left x w.pending_dir_entry_inserts _ h;
    queued = λ r m l i f g.
        let same : r0 ≡ r = cc f in
        let both : none ≡ some (l, i) = sym e ∙ ap known same ∙ g in absurd (cc both);
    inserted = λ r m f g.
        let same : r0 ≡ r = cc f in
        subst
          (λ x. In (root_dir_name, x) (w.pending_dir_entry_inserts ++ ((root_dir_name, r0) ∷ [])))
          same (In-append_last w.pending_dir_entry_inserts (root_dir_name, r0));
    not_found = forgotten r0 m0 w;
    left = remembered r0 m0 w;
  }
  recorded r0 m0 (some (l0, i0)) w e = record {
    queue_stays = λ x h. In-append_left x w.queue _ h;
    inserts_stay = λ x h. h;
    queued = λ r m l i f g.
        let same : r0 ≡ r = cc f in
        let time : m0 ≡ m = cc f in
        let both : some (l0, i0) ≡ some (l, i) = sym e ∙ ap known same ∙ g in
        let last : l0 ≡ l = cc both in
        let id : i0 ≡ i = cc both in
        rw (← id, ← last, ← time) (In-append_last w.queue (i0, change_of m0 l0));
    inserted = λ r m f g.
        let same : r0 ≡ r = cc f in
        let both : some (l0, i0) ≡ none = sym e ∙ ap known same ∙ g in absurd (cc both);
    not_found = forgotten r0 m0 w;
    left = remembered r0 m0 w;
  }

  pub noted-IsWalked : (o : Option (Str × ℕ)) (w : Walk) → IsWalked (Only o) w (noted o w)
  noted-IsWalked none w = record {
    queue_stays = λ x h. h;
    inserts_stay = λ x h. h;
    queued = λ r m l i f g. absurd (cc f);
    inserted = λ r m f g. absurd (cc f);
    not_found = λ p h. (h, λ r m f. absurd (cc f));
    left = λ p h n. h;
  }
  noted-IsWalked (some (r0, m0)) w = recorded r0 m0 (known r0) w refl
