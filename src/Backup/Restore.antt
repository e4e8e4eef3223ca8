-- ===== src/Backup/Restore.antt =====
-- pkg/backup/restore.go: `FilterRelPaths`, which paths of a snapshot are restored.
pub mod Wanted
use mathlib.Core.Path.{subst}
use tless.Prelude.{
  ◌≡◌, refl, sym, ◌∙◌, Str, Bool, true, false, ◌&&◌, ◌||◌, Option, none, some, List, [], ◌∷◌, ◌==◌,
  ==_iff, str_eq, contains, if◌then◌else◌, Bool-cases, inl, inr, arith,
}
use tless.Prelude.Dict.{Dict, lookup, insert, lookup-insert}
use tless.Util.Strings.{has_prefix}
use tless.Snapshots.{CloudRelPath, Snapshot}

abbrev pub RelPaths : Type 0
RelPaths = Dict Str CloudRelPath

-- `ret[relPath] = snapshotObj.RelPaths[relPath]`. In the loop over the keys the path is there.
unfoldable put : Str → Option CloudRelPath → RelPaths → RelPaths
unfolding insert str_eq
put path none ret = ret
put path (some crp) ret = insert path crp ret

-- One of the two inner loops, by its test.
unfoldable add_matches :
    (Str → Str → Bool) → Str → Option CloudRelPath → List Str → RelPaths → RelPaths
unfolding put
add_matches test path crp [] ret = ret
add_matches test path crp (s ∷ selected) ret =
    add_matches test path crp selected (if test path s then put path crp ret else ret)

abbrev pub equals : Str → Str → Bool
equals path srp = path == srp

-- What is done for one path, by which lists are empty.
unfoldable filter_one : List Str → List Str → Str → Option CloudRelPath → RelPaths → RelPaths
unfolding add_matches put has_prefix str_eq
filter_one [] [] path crp ret = put path crp ret
filter_one [] (p ∷ prefixes) path crp ret = add_matches has_prefix path crp (p ∷ prefixes) ret
filter_one (s ∷ specific) prefixes path crp ret = add_matches equals path crp (s ∷ specific) ret

unfoldable filter_loop : List Str → List Str → RelPaths → RelPaths → RelPaths → RelPaths
unfolding filter_one lookup
filter_loop specific prefixes all [] ret = ret
filter_loop specific prefixes all ((path, _) ∷ rest) ret =
    filter_loop specific prefixes all rest (filter_one specific prefixes path (lookup path all) ret)

unfoldable pub filter_rel_paths : Snapshot → List Str → List Str → RelPaths
unfolding filter_loop
filter_rel_paths snapshot_obj specific_rel_paths selected_rel_path_prefixes =
    filter_loop specific_rel_paths selected_rel_path_prefixes snapshot_obj.rel_paths
      snapshot_obj.rel_paths []
