-- ===== src/Util/Slices.antt =====
-- `SplitSnapshotName` inverts `RawSnapshotName`, and `AppendIfNotPresent` adds at most one.
use mathlib.Core.List.{append-nil}
use tless.Prelude.{
  ℕ, ◌+◌, ◌≤◌, ◌≡◌, ◌≢◌, refl, Str, false, ◌||◌, some, List, [], ◌∷◌, ◌++◌, arith, Bool-cases, ◌==◌,
  nat_eq, str_eq, length, All, append-cons, ==_iff, length-append, inl, inr,
}
use tless.Util.{slash, is_present, append_if_not_present, split_snapshot_name}
use tless.Util.Strings.{split_onto}

-- No byte of the string is a slash.
abbrev pub HasNoSlash : Str → Type 0
HasNoSlash = All (λ c. c ≢ b'/')

ne_slash : (c : ℕ) → c ≢ b'/' → (c == b'/') ≡ false
ne_slash c h = ground arith

split_onto-append :
    (part s rest : Str)
    → HasNoSlash s
    → split_onto part (s ++ (b'/' ∷ rest)) b'/' ≡ (part ++ s) ∷ split_onto [] rest b'/'
unfolding split_onto nat_eq
split_onto-append part [] rest h = rw append-nil
split_onto-append part (c ∷ s) rest h =
    rw (ne_slash c h.0, split_onto-append (part ++ (c ∷ [])) s rest h.1, append-cons)

split_onto_whole : (part s : Str) → HasNoSlash s → split_onto part s b'/' ≡ (part ++ s) ∷ []
unfolding split_onto
split_onto_whole part [] h = rw append-nil
split_onto_whole part (c ∷ s) h =
    rw (ne_slash c h.0, split_onto_whole (part ++ (c ∷ [])) s h.1, append-cons)

-- The raw name of a snapshot, `backupName + "/" + snapshotName`, splits into the two, also where
-- the backup is of the root directory and its name is "/".
pub split_snapshot_name_lem :
    (dir time : Str)
    → HasNoSlash dir
    → HasNoSlash time
    → (split_snapshot_name (dir ++ (slash ++ time)) ≡ some (dir, time))
      × (split_snapshot_name (slash ++ (slash ++ time)) ≡ some (slash, time))
unfolding split_snapshot_name nat_eq
split_snapshot_name_lem dir time h k = (
  rw (split_onto-append [] dir time h, split_onto_whole [] time k),
  rw (split_onto_whole [] time k),
)

is_present-append :
    (slice : List Str) (x y : Str)
    → is_present (slice ++ (x ∷ [])) y ≡ (y == x || is_present slice y)
unfolding is_present
is_present-append [] x y = refl
is_present-append (s ∷ slice) x y = rw (is_present-append slice x y) (ground arith)

-- The slice then holds what it held and the new element, and is longer by one at most.
pub append_if_not_present_lem :
    (slice : List Str) (x y : Str)
    → (is_present (append_if_not_present slice x) y ≡ (y == x || is_present slice y))
      × (length (append_if_not_present slice x) ≤ length slice + 1)
unfolding append_if_not_present
append_if_not_present_lem slice x y = elim (Bool-cases (is_present slice x)) [
  | inl e ↦ rw e (ground (arith, ==_iff y x), omega arith)
  | inr e ↦ rw e (is_present-append slice x y, omega (arith, length-append slice (x ∷ [])))
]
