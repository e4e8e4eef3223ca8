-- ===== src/Tests/Strings.antt =====
-- The string helpers.
use mathlib.Core.List.{reverse}
use tless.Prelude.{ℕ, ◌+◌, ◌≡◌, ◌≤◌, ◌<◌, ◌++◌, Str, false, codes, some, replicate, str_eq}
use tless.Util.{strip_trailing_slashes, split_snapshot_name, format_seconds}
use tless.Util.Strings.{has_prefix}
use tless.Util.Paths.{strip_trailing_slashes_lem}
use tless.Util.Slices.{split_snapshot_name_lem}
use tless.Util.Durations.{printed, unit, IsProper, format_seconds_lem}

abbrev dir : Str
dir = codes "//home/me//"

strip_trailing_slashes_example :
    (k : ℕ) × (dir ≡ strip_trailing_slashes dir ++ replicate k 47)
    × (has_prefix (reverse (strip_trailing_slashes dir)) (codes "/") ≡ false)
strip_trailing_slashes_example = strip_trailing_slashes_lem dir (λ e. cc e)

split_snapshot_name_example :
    (split_snapshot_name (codes "home/2020") ≡ some (codes "home", codes "2020"))
    × (split_snapshot_name (codes "//2020") ≡ some (codes "/", codes "2020"))
split_snapshot_name_example =
    split_snapshot_name_lem (codes "home") (codes "2020")
      (λ e. cc e, (λ e. cc e, (λ e. cc e, (λ e. cc e, tt))))
      (λ e. cc e, (λ e. cc e, (λ e. cc e, (λ e. cc e, tt))))

format_seconds_example :
    (printed (format_seconds 4000) ≤ 4000)
    × (4000 < printed (format_seconds 4000) + unit (format_seconds 4000))
    × IsProper (format_seconds 4000)
format_seconds_example = format_seconds_lem 4000
