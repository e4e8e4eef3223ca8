-- ===== src/Fstraverse/Excludes.antt =====
-- pkg/fstraverse/fstraverse.go: which paths are excluded from a backup.
use tless.Prelude.{
  ℕ, zero, suc, ◌<◌, ◌≡◌, refl, Str, codes, Bool, true, false, ◌&&◌, ◌||◌, Option, none, some, List,
  [], ◌∷◌, if◌then◌else◌, ◌==◌, nat_eq, str_eq, length, contains, arith, ap,
}
use tless.Util.{slash}
use tless.Util.Strings.{has_prefix}

-- `filepath.Match`, whose error is `none`, and `filepath.Dir`.
pub record Globs : Type 0 where
  pub is_match : Str → Str → Option Bool
  pub dir : Str → Str

unfoldable pub is_glob : Str → Bool
unfolding contains nat_eq
is_glob s = contains s b'*' || contains s b'?'

-- The end of the way up.
abbrev pub is_top : Str → Bool
is_top path = path == codes "." || path == slash

-- A bad glob excludes nothing; where the path does not match, its parents are tried.
abbrev after_match : Option Bool → Bool → Bool → Bool
after_match none at_top above = false
after_match (some true) at_top above = true
after_match (some false) at_top above = if at_top then false else above

-- The loop over the path and its parents, with the number of rounds that it may take.
unfoldable pub is_excluded_by_glob : Globs → ℕ → Str → Str → Bool
unfolding str_eq
is_excluded_by_glob W zero path glob = false
is_excluded_by_glob W (suc rounds) path glob =
    let above = is_excluded_by_glob W rounds (W.dir path) glob in
    after_match (W.is_match glob path) (is_top (W.dir path)) above

-- A directory is shorter than the path, so the path's length is enough rounds.
unfoldable pub is_excluded : Globs → Str → List Str → Bool
unfolding is_glob is_excluded_by_glob has_prefix
is_excluded W path [] = false
is_excluded W path (exclude ∷ excludes) =
    let rest = is_excluded W path excludes in
    if is_glob exclude && is_excluded_by_glob W (suc (length path)) path exclude
    then true
    else if has_prefix path exclude
    then true
    else rest

-- What the code relies on: going up shortens every path but the ends.
abbrev pub GoesUp : Globs → Type 0
GoesUp W = (path : Str) → is_top (W.dir path) ≡ false → length (W.dir path) < length path

-- More rounds do not matter.
pub enough_rounds :
    (W : Globs) (m n : ℕ) (path glob : Str)
    → GoesUp W
    → length path < m
    → length path < n
    → is_excluded_by_glob W m path glob ≡ is_excluded_by_glob W n path glob
unfolding is_excluded_by_glob
enough_rounds W zero n path glob up l k = absurd (omega arith)
enough_rounds W (suc m) zero path glob up l k = absurd (omega arith)
enough_rounds W (suc m) (suc n) path glob up l k =
    go (is_top (W.dir path)) refl
      (λ less. enough_rounds W m n (W.dir path) glob up (omega arith) (omega arith))
  where
    ends : (a : Option Bool) (x y : Bool) → after_match a true x ≡ after_match a true y
    ends none x y = refl
    ends (some true) x y = refl
    ends (some false) x y = refl

    go :
        (t : Bool)
        → is_top (W.dir path) ≡ t
        → (length (W.dir path) < length path
            → is_excluded_by_glob W m (W.dir path) glob ≡ is_excluded_by_glob W n (W.dir path) glob)
        → after_match (W.is_match glob path) t (is_excluded_by_glob W m (W.dir path) glob)
          ≡ after_match (W.is_match glob path) t (is_excluded_by_glob W n (W.dir path) glob)
    go true e again = ends (W.is_match glob path) _ _
    go false e again = ap (after_match (W.is_match glob path) false) (again (up path e))
