-- ===== src/Snapshots/Collect/Orphans.antt =====
-- The garbage collection deletes the chunks that no snapshot has, and no other object.
use mathlib.Core.Path.{subst}
use tless.Prelude.{
  ℕ, ◌↔◌, ◌≡◌, refl, sym, ap, ◌∙◌, ◌⊎◌, inl, inr, Str, Bool, false, ◌&&◌, Option, none, some, List,
  [], ◌∷◌, In, ◌==◌, ==_iff, str_eq, Bool-cases, Option-cases, if◌then◌else◌, arith,
}
use tless.Prelude.Dict.{Dict, lookup}
use tless.Util.Strings.{trim_prefix}
use tless.Cryptography.{or_failed, Outcome, done, failed, crash, Primitives}
use tless.Objstore.{Minio, Cloud, IsLawful, get_obj_list, delete_obj}
use tless.Snapshots.{BackupDir, Json}
use tless.Snapshots.Grouped.{◌>>=◌, Net, asked, continue, get_grouped_snapshots}
use tless.Snapshots.Collect.{
  Counts, count_backups, chunks_prefix, delete_or_fail, delete_orphans, gc_chunks,
}
use tless.Snapshots.Collect.Counts.{is_some, is_referenced, backups_counted}
use tless.Snapshots.Collect.Reads.{get_obj_list-Reads, get_grouped_snapshots-Reads}

-- The name of a chunk, from that of its object.
abbrev pub chunk_of : Str → Str
chunk_of name = trim_prefix name chunks_prefix

some-none : {v : ℕ} → ¬ (some v ≡ none)
some-none e = cc e

is_none_iff : (o : Option ℕ) → (o ≡ none) ↔ (is_some o ≡ false)
is_none_iff none = (λ e. refl, λ e. refl)
is_none_iff (some n) = (λ e. absurd (cc e), λ e. absurd (cc e))

counted_iff :
    (k : Str) (groups : Dict Str BackupDir)
    → is_some (lookup k (count_backups groups [])) ≡ is_referenced k groups
unfolding lookup
counted_iff k groups = backups_counted k groups [] ∙ ground arith

unreferenced :
    (k : Str) (groups : Dict Str BackupDir)
    → (lookup k (count_backups groups []) ≡ none) ↔ (is_referenced k groups ≡ false)
unreferenced k groups =
    subst (λ b. (lookup k (count_backups groups []) ≡ none) ↔ (b ≡ false)) (counted_iff k groups)
      (is_none_iff (lookup k (count_backups groups [])))

module _ {M : Minio} (L : IsLawful M) where
  abbrev held : Cloud M → Str → Option Str
  held c k = L.objects c.server k

  -- The object is as before, or is gone and had no count.
  abbrev IsSpared : Counts → Str → Cloud M → Cloud M → Type 0
  IsSpared counts k c c' =
      (held c' k ≡ held c k) ⊎ ((held c' k ≡ none) × (lookup (chunk_of k) counts ≡ none))

  delete-objects :
      (name k : Str) (c : Cloud M)
      → held (delete_obj M name c).1 k
        ≡ (if (delete_obj M name c).0 && (name == k) then none else held c k)
  unfolding delete_obj
  delete-objects name k c = L.objects-remove name k c.server

  after_delete :
      (counts : Counts) (objs : List (Str × ℕ)) (name k : Str) (c : Cloud M)
      → lookup (chunk_of name) counts ≡ none
      → ((c' : Cloud M) → IsSpared counts k c' (delete_orphans counts objs c').1)
      → IsSpared counts k c
          (continue
            (delete_or_fail name c).0
            (λ _. delete_orphans counts objs)
            (delete_or_fail name c).1).1
  after_delete counts objs name k c e ih = elim (Bool-cases (delete_obj M name c).0) [
    | inl ok ↦ rw ok (elim (ih (delete_obj M name c).1) [
      | inl same ↦ elim (Bool-cases (name == k)) [
        | inl p ↦ inr (
          same ∙ delete-objects name k c ∙ rw (ok, p) refl,
          subst (λ x. lookup (chunk_of x) counts ≡ none) ((==_iff name k).0 p) e,
        )
        | inr p ↦ inl (same ∙ delete-objects name k c ∙ rw (ok, p) refl)
      ]
      | inr gone ↦ inr gone
    ])
    | inr ok ↦ rw ok (inl (delete-objects name k c ∙ rw ok refl))
  ]

  spares :
      (counts : Counts) (objs : List (Str × ℕ)) (k : Str) (c : Cloud M)
      → IsSpared counts k c (delete_orphans counts objs c).1
  unfolding delete_orphans
  spares counts [] k c = inl refl
  spares counts ((name, size) ∷ objs) k c = elim (Option-cases (lookup (chunk_of name) counts)) [
    | inl e ↦ rw (e, delete_orphans) ((after_delete counts objs name k c e (spares counts objs k)))
    | inr (n, e) ↦ rw (e, delete_orphans) ((spares counts objs k c))
  ]

  stays_gone :
      (counts : Counts) (objs : List (Str × ℕ)) (k : Str) (c : Cloud M)
      → held c k ≡ none
      → held (delete_orphans counts objs c).1 k ≡ none
  stays_gone counts objs k c e = elim (spares counts objs k c) [
    | inl same ↦ same ∙ e
    | inr gone ↦ gone.0
  ]

  abbrev IsSwept : Counts → List (Str × ℕ) → Str → Cloud M → Type 0
  IsSwept counts objs k c =
      (delete_orphans counts objs c).0 ≡ done tt → held (delete_orphans counts objs c).1 k ≡ none

  sweep_one :
      (counts : Counts) (objs : List (Str × ℕ)) (name k : Str) (c : Cloud M)
      → (name ≡ k) ⊎ ((c' : Cloud M) → IsSwept counts objs k c')
      → (continue
          (delete_or_fail name c).0
          (λ _. delete_orphans counts objs)
          (delete_or_fail name c).1).0
        ≡ done tt
      → held
          (continue
            (delete_or_fail name c).0
            (λ _. delete_orphans counts objs)
            (delete_or_fail name c).1).1
          k
        ≡ none
  sweep_one counts objs name k c m = elim (Bool-cases (delete_obj M name c).0) [
    | inl ok ↦ rw ok (λ d. elim m [
      | inl e ↦
          stays_gone counts objs k (delete_obj M name c).1
            (delete-objects name k c ∙ rw (ok, (==_iff name k).1 e) refl)
      | inr ih ↦ ih (delete_obj M name c).1 d
    ])
    | inr ok ↦ rw ok (λ d. absurd (cc d))
  ]

  sweeps :
      (counts : Counts) (objs : List (Str × ℕ)) (k : Str) (size : ℕ) (c : Cloud M)
      → In (k, size) objs
      → lookup (chunk_of k) counts ≡ none
      → IsSwept counts objs k c
  unfolding delete_orphans
  sweeps counts [] k size c m e = elim m [ ]
  sweeps counts ((name, n) ∷ objs) k size c m e =
      elim (Option-cases (lookup (chunk_of name) counts)) [
        | inl h ↦
            rw (h, delete_orphans)
              ((sweep_one counts objs name k c (elim m [
                | inl p ↦ inl (sym (ap (λ x. x.0) p))
                | inr q ↦ inr (λ c'. sweeps counts objs k size c' q e)
              ])))
        | inr (v, h) ↦
            rw (h, delete_orphans)
              ((elim m [
                | inl p ↦ absurd (
                    some-none
                      (sym h ∙ subst (λ x. lookup (chunk_of x) counts ≡ none) (ap (λ x. x.0) p) e))
                | inr q ↦ sweeps counts objs k size c q e
              ]))
      ]

  -- What a collection does that read `r`, listed `listed` and left `d`.
  abbrev pub IsCollected :
      Cloud M
      → Outcome (Dict Str BackupDir)
      → Option (List (Str × ℕ))
      → Outcome (Unit {0}) × Cloud M
      → Type 0
  IsCollected c r listed d =
      ((k : Str)
        → (held d.1 k ≡ held c k)
          ⊎ ((held d.1 k ≡ none)
              × ((groups : Dict Str BackupDir) × (r ≡ done groups)
                  × (is_referenced (chunk_of k) groups ≡ false))))
      × (d.0 ≡ done tt
          → (groups : Dict Str BackupDir) × (r ≡ done groups)
            × ((chunks : List (Str × ℕ)) × (listed ≡ some chunks)
                × ((k : Str) (size : ℕ)
                    → In (k, size) chunks
                    → is_referenced (chunk_of k) groups ≡ false
                    → held d.1 k ≡ none)))

  abbrev sweep : Dict Str BackupDir → List (Str × ℕ) → Net M (Unit {0})
  sweep groups chunks = delete_orphans (count_backups groups []) chunks

  listed_collects :
      (c c2 : Cloud M) (groups : Dict Str BackupDir) (listed : Option (List (Str × ℕ)))
      → ((k : Str) → held c2 k ≡ held c k)
      → IsCollected c (done groups) listed (continue (or_failed listed) (sweep groups) c2)
  listed_collects c c2 groups none h = (λ k. inl (h k), λ e. absurd (cc e))
  listed_collects c c2 groups (some chunks) h = (
    λ k. elim (spares (count_backups groups []) chunks k c2) [
      | inl same ↦ inl (same ∙ h k)
      | inr (gone, e) ↦ inr (gone, (groups, refl, (unreferenced (chunk_of k) groups).0 e))
    ],
    λ ok. (
      groups,
      refl,
      (
        chunks,
        refl,
        λ k size m u.
            sweeps (count_backups groups []) chunks k size c2 m
              ((unreferenced (chunk_of k) groups).1 u) ok,
      ),
    ),
  )

  abbrev list_and_sweep : Dict Str BackupDir → Net M (Unit {0})
  list_and_sweep groups = asked (get_obj_list M chunks_prefix) >>= sweep groups

  read_collects :
      (c c1 : Cloud M) (r : Outcome (Dict Str BackupDir))
      → ((k : Str) → held c1 k ≡ held c k)
      → IsCollected c r (get_obj_list M chunks_prefix c1).0 (continue r list_and_sweep c1)
  read_collects c c1 (done groups) h =
      let listed = get_obj_list M chunks_prefix c1 in
      listed_collects c listed.1 groups listed.0
        (λ k. get_obj_list-Reads L chunks_prefix c1 k ∙ h k)
  read_collects c c1 failed h = (λ k. inl (h k), λ e. absurd (cc e))
  read_collects c c1 crash h = (λ k. inl (h k), λ e. absurd (cc e))

  module _ (P : Primitives) (J : Json) (key : Str) (with_progress : Bool) (c : Cloud M) where
    -- With a lawful store, whatever the outcome: each object is as it was, or it is gone, and then
    -- the snapshots were read and none of them refers to a chunk of that name. If the collection
    -- returns no error, the listed objects under "chunks/" to which no snapshot refers are gone.
    pub gc_chunks_lem :
        let read = get_grouped_snapshots P J key with_progress c in
        IsCollected c read.0
          (get_obj_list M chunks_prefix read.1).0
          (gc_chunks P J key with_progress c)
    unfolding gc_chunks
    gc_chunks_lem =
        let read = get_grouped_snapshots P J key with_progress c in
        read_collects c read.1 read.0 (get_grouped_snapshots-Reads L P J key with_progress c)
