-- ===== src/Util.antt =====
-- pkg/util/util.go: paths, slices and printing. Strings are lists of bytes.
pub mod Strings
pub mod Paths
pub mod Slices
pub mod Durations
use tless.Prelude.{
  ℕ, zero, suc, ◌+◌, ◌*◌, ◌/◌, ◌%◌, ◌<◌, Str, codes, Bool, true, false, ◌||◌, Option, none, some,
  List, [], ◌∷◌, ◌++◌, ltb, if◌then◌else◌, ◌==◌, nat_eq, str_eq, length,
}
use tless.Util.Strings.{has_prefix, trim_prefix, trim_suffix, split}

abbrev pub slash : Str
slash = b'/' ∷ []

-- The loop of `StripTrailingSlashes`, with the number of rounds that it may take.
strip_trailing_loop : ℕ → Str → Str
strip_trailing_loop zero s = s
strip_trailing_loop (suc rounds) s =
    let stripped = trim_suffix s slash in
    let again = strip_trailing_loop rounds stripped in if stripped == s then stripped else again

-- A round that goes on removes a byte, so one round more than the length is enough.
unfoldable pub strip_trailing_slashes : Str → Str
unfolding strip_trailing_loop trim_suffix
strip_trailing_slashes s = if s == slash then s else strip_trailing_loop (suc (length s)) s

-- The loop of `StripLeadingSlashes`.
strip_leading_loop : ℕ → Str → Str
strip_leading_loop zero s = s
strip_leading_loop (suc rounds) s =
    let again = strip_leading_loop rounds (trim_prefix s slash) in
    if has_prefix s slash then again else s

unfoldable pub strip_leading_slashes : Str → Str
unfolding strip_leading_loop trim_prefix has_prefix
strip_leading_slashes s = strip_leading_loop (suc (length s)) s

-- `sliceToCommaSeparatedString`
unfoldable pub slice_to_comma_separated_string : List Str → Str
slice_to_comma_separated_string [] = []
slice_to_comma_separated_string (s ∷ rest) =
    let tail = slice_to_comma_separated_string rest in
    (b'"' ∷ (s ++ (b'"' ∷ []))) ++ (if ltb 0 (length rest) then codes ", " ++ tail else tail)

unfoldable pub int_slice_contains : List ℕ → ℕ → Bool
int_slice_contains [] i = false
int_slice_contains (val ∷ sl) i = i == val || int_slice_contains sl i

-- The loop of `AppendIfNotPresent`.
unfoldable pub is_present : List Str → Str → Bool
is_present [] x = false
is_present (s ∷ slice) x = x == s || is_present slice x

unfoldable pub append_if_not_present : List Str → Str → List Str
unfolding is_present
append_if_not_present slice x = if is_present slice x then slice else slice ++ (x ∷ [])

two_parts : Str → List Str → Option (Str × Str)
two_parts snapshot_name (dir ∷ time ∷ []) = some (dir, time)
two_parts snapshot_name _ =
    if has_prefix snapshot_name (codes "//")
    then some (slash, trim_prefix snapshot_name (codes "//"))
    else none

-- The backup's name and the snapshot's time; `none` is the error of a malformed name.
unfoldable pub split_snapshot_name : Str → Option (Str × Str)
unfolding two_parts split has_prefix trim_prefix
split_snapshot_name snapshot_name = two_parts snapshot_name (split snapshot_name b'/')

-- What `FormatSecondsAsString` prints, before the numbers are written out.
pub data Duration : Type 0 where
  seconds : ℕ → Duration
  minutes : ℕ → Duration
  hours_minutes : ℕ → ℕ → Duration
  days_hours : ℕ → ℕ → Duration

unfoldable pub format_seconds : ℕ → Duration
format_seconds sec =
    if ltb sec 60
    then seconds sec
    else if ltb sec (60 * 60)
    then minutes (sec / 60)
    else if ltb sec (24 * 60 * 60)
    then hours_minutes (sec / (60 * 60)) (sec % (60 * 60) / 60)
    else if ltb sec (90 * 24 * 60 * 60)
    then days_hours (sec / (24 * 60 * 60)) (sec % (24 * 60 * 60) / (60 * 60))
    else seconds sec
