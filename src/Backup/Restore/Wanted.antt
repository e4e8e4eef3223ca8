-- ===== src/Backup/Restore/Wanted.antt =====
-- Which paths `FilterRelPaths` returns.
use mathlib.Core.Path.{subst}
use tless.Prelude.{
  ◌≡◌, refl, sym, ◌∙◌, Str, Bool, true, false, ◌&&◌, ◌||◌, Option, none, some, List, [], ◌∷◌, ◌==◌,
  ==_iff, str_eq, if◌then◌else◌, Bool-cases, inl, inr, arith,
}
use tless.Prelude.Dict.{lookup, lookup-insert}
use tless.Util.Strings.{has_prefix}
use tless.Snapshots.{CloudRelPath, Snapshot}
use tless.Backup.Restore.{
  RelPaths, put, add_matches, equals, filter_one, filter_loop, filter_rel_paths,
}

-- Whether one of the list passes the test.
abbrev any : (Str → Bool) → List Str → Bool
any test [] = false
any test (s ∷ selected) = test s || any test selected

-- Which paths are wanted: the specific ones if there are any, else those with a prefix if there
-- are any, else all.
abbrev pub is_wanted : List Str → List Str → Str → Bool
is_wanted [] [] path = true
is_wanted [] (p ∷ prefixes) path = any (has_prefix path) (p ∷ prefixes)
is_wanted (s ∷ specific) prefixes path = any (equals path) (s ∷ specific)

abbrev or_else : Option CloudRelPath → Option CloudRelPath → Option CloudRelPath
or_else none o = o
or_else (some crp) o = some crp

-- The entry after a put under the condition `b`, where `same` is whether the paths are.
abbrev entry : Bool → Bool → Option CloudRelPath → Option CloudRelPath → Option CloudRelPath
entry b same crp old = if b && same then or_else crp old else old

-- The entry under `k`, once `crp` was put under `path` if `b`.
abbrev updated : Bool → Str → Str → Option CloudRelPath → RelPaths → Option CloudRelPath
updated b path k crp ret = entry b (path == k) crp (lookup k ret)

put-updated :
    (path k : Str) (crp : Option CloudRelPath) (ret : RelPaths)
    → lookup k (put path crp ret) ≡ updated true path k crp ret
unfolding put
put-updated path k none ret = ground arith
put-updated path k (some crp) ret = rw lookup-insert refl

entry_twice :
    (a b same : Bool) (crp old : Option CloudRelPath)
    → entry b same crp (entry a same crp old) ≡ entry (a || b) same crp old
entry_twice true true true none old = refl
entry_twice true true true (some x) old = refl
entry_twice true true false crp old = refl
entry_twice true false true crp old = refl
entry_twice true false false crp old = refl
entry_twice false b same crp old = refl

entry_other :
    (a b : Bool) (crp other old : Option CloudRelPath)
    → entry b true other (entry a false crp old) ≡ entry b true other old
entry_other true b crp other old = refl
entry_other false b crp other old = refl

entry_wanted :
    (h w : Bool) (crp old : Option CloudRelPath)
    → entry (h && w) true crp (entry w true crp old) ≡ entry w true crp old
entry_wanted true true none old = refl
entry_wanted true true (some x) old = refl
entry_wanted true false crp old = refl
entry_wanted false w crp old = refl

add_matches-updated :
    (test : Str → Str → Bool) (path k : Str) (crp : Option CloudRelPath) (selected : List Str)
    (ret : RelPaths)
    → lookup k (add_matches test path crp selected ret)
      ≡ updated (any (test path) selected) path k crp ret
unfolding add_matches
add_matches-updated test path k crp [] ret = refl
add_matches-updated test path k crp (s ∷ selected) ret = elim (Bool-cases (test path s)) [
  | inl e ↦ rw e (
      add_matches-updated test path k crp selected (put path crp ret)
      ∙ rw (put-updated path k crp ret)
          (entry_twice true (any (test path) selected) (path == k) crp (lookup k ret)))
  | inr e ↦ rw e (add_matches-updated test path k crp selected ret)
]

filter_one-updated :
    (specific prefixes : List Str) (path k : Str) (crp : Option CloudRelPath) (ret : RelPaths)
    → lookup k (filter_one specific prefixes path crp ret)
      ≡ updated (is_wanted specific prefixes path) path k crp ret
unfolding filter_one
filter_one-updated [] [] path k crp ret = put-updated path k crp ret
filter_one-updated [] (p ∷ prefixes) path k crp ret =
    add_matches-updated has_prefix path k crp (p ∷ prefixes) ret
filter_one-updated (s ∷ specific) prefixes path k crp ret =
    add_matches-updated equals path k crp (s ∷ specific) ret

abbrev has_key : Str → RelPaths → Bool
has_key k [] = false
has_key k ((path, _) ∷ rest) = path == k || has_key k rest

filter_loop-lookup :
    (specific prefixes : List Str) (all rest ret : RelPaths) (k : Str)
    → lookup k (filter_loop specific prefixes all rest ret)
      ≡ entry (has_key k rest && is_wanted specific prefixes k) true (lookup k all) (lookup k ret)
unfolding filter_loop
filter_loop-lookup specific prefixes all [] ret k = refl
filter_loop-lookup specific prefixes all ((path, v) ∷ rest) ret k =
    filter_loop-lookup specific prefixes all rest
      (filter_one specific prefixes path (lookup path all) ret) k
    ∙ rw (filter_one-updated specific prefixes path k (lookup path all) ret)
        (elim (Bool-cases (path == k)) [
          | inl e ↦ rw e (
              subst
                (λ p.
                  entry (has_key k rest && is_wanted specific prefixes k) true (lookup k all)
                    (entry (is_wanted specific prefixes p) true (lookup p all) (lookup k ret))
                  ≡ entry (is_wanted specific prefixes k) true (lookup k all) (lookup k ret))
                (sym ((==_iff path k).0 e))
                (entry_wanted (has_key k rest) (is_wanted specific prefixes k) (lookup k all)
                  (lookup k ret)))
          | inr e ↦ rw e (
              entry_other (is_wanted specific prefixes path)
                (has_key k rest && is_wanted specific prefixes k) (lookup path all) (lookup k all)
                (lookup k ret))
        ])

no_key : (k : Str) (all : RelPaths) → has_key k all ≡ false → lookup k all ≡ none
unfolding lookup
no_key k [] h = refl
no_key k ((path, v) ∷ all) h = ground (arith, no_key k all)

whole : (w : Bool) (crp : Option CloudRelPath) → entry w true crp none ≡ (if w then crp else none)
whole true none = refl
whole true (some x) = refl
whole false crp = refl

nothing : (w : Bool) → ◌≡◌ {A = Option CloudRelPath} none (if w then none else none)
nothing true = refl
nothing false = refl

-- The paths that are restored are those of the snapshot that are wanted, with their extents.
pub filter_rel_paths_lem :
    (snapshot_obj : Snapshot) (specific prefixes : List Str) (k : Str)
    → lookup k (filter_rel_paths snapshot_obj specific prefixes)
      ≡ (if is_wanted specific prefixes k then lookup k snapshot_obj.rel_paths else none)
unfolding filter_rel_paths lookup
filter_rel_paths_lem snapshot_obj specific prefixes k =
    let all = snapshot_obj.rel_paths in
    filter_loop-lookup specific prefixes all all [] k ∙ elim (Bool-cases (has_key k all)) [
      | inl e ↦ rw e (whole (is_wanted specific prefixes k) (lookup k all))
      | inr e ↦ rw (e, no_key k all e) (nothing (is_wanted specific prefixes k))
    ]
