-- ===== src/Util/Strings.antt =====
-- What the code uses of Go's package strings.
use mathlib.Core.List.{reverse}
use tless.Prelude.{
  ℕ, Str, Bool, true, false, List, [], ◌∷◌, ◌++◌, if◌then◌else◌, ◌==◌, ◌&&◌, nat_eq, length, drop,
}

-- `strings.HasPrefix`
unfoldable pub has_prefix : Str → Str → Bool
has_prefix s [] = true
has_prefix [] (p ∷ prefix) = false
has_prefix (c ∷ s) (p ∷ prefix) = c == p && has_prefix s prefix

-- `strings.TrimPrefix`
unfoldable pub trim_prefix : Str → Str → Str
unfolding has_prefix
trim_prefix s prefix = if has_prefix s prefix then drop (length prefix) s else s

-- `strings.TrimSuffix`
unfoldable pub trim_suffix : Str → Str → Str
unfolding trim_prefix
trim_suffix s suffix = reverse (trim_prefix (reverse s) (reverse suffix))

-- `strings.Split` at one byte: the part that begins with `part`, and those that follow.
unfoldable pub split_onto : Str → Str → ℕ → List Str
split_onto part [] sep = part ∷ []
split_onto part (c ∷ s) sep =
    let here = part ∷ split_onto [] s sep in
    let longer = split_onto (part ++ (c ∷ [])) s sep in if c == sep then here else longer

unfoldable pub split : Str → ℕ → List Str
unfolding split_onto
split s sep = split_onto [] s sep
