-- ===== src/Util/Paths.antt =====
-- Slashes at the ends of paths.
use mathlib.Core.List.{reverse, reverse-append, reverse-reverse}
use mathlib.Core.Path.{subst}
use mathlib.Core.Bool.{false≢true}
use native.Mathlib.Decide.{ℕ_discrete}
use tless.Prelude.{
  ℕ, zero, suc, ◌<◌, ◌≡◌, ◌≢◌, refl, sym, ◌∙◌, ap, inl, inr, Str, false, [], ◌∷◌, ◌++◌, arith,
  if◌then◌else◌, Bool-cases, ◌==◌, nat_eq, str_eq, ==_iff, ==_refl, length, replicate,
  reverse-replicate, length-reverse,
}
use tless.Util.{
  slash, strip_trailing_loop, strip_trailing_slashes, strip_leading_loop, strip_leading_slashes,
}
use tless.Util.Strings.{has_prefix, trim_prefix, trim_suffix}

-- No round is left to do: what stays does not begin with a slash.
abbrev IsLeadingDone : ℕ → Str → Type 0
IsLeadingDone rounds s =
    (k : ℕ) × (s ≡ replicate k b'/' ++ strip_leading_loop rounds s)
    × (has_prefix (strip_leading_loop rounds s) slash ≡ false)

loop_slash :
    (rounds : ℕ) (s : Str)
    → strip_leading_loop (suc rounds) (b'/' ∷ s) ≡ strip_leading_loop rounds s
unfolding strip_leading_loop has_prefix trim_prefix nat_eq
loop_slash rounds s = refl

has_prefix-slash_ne : (c : ℕ) (s : Str) → c ≢ b'/' → has_prefix (c ∷ s) slash ≡ false
unfolding has_prefix
has_prefix-slash_ne c s n = ground arith

loop_ne : (rounds c : ℕ) (s : Str) → c ≢ b'/' → strip_leading_loop (suc rounds) (c ∷ s) ≡ c ∷ s
unfolding strip_leading_loop
loop_ne rounds c s n = rw (has_prefix-slash_ne c s n)

strip_leading_loop_done : (rounds : ℕ) (s : Str) → length s < rounds → IsLeadingDone rounds s
strip_leading_loop_done zero s h = elim h [ ]
strip_leading_loop_done (suc rounds) [] h = unfold strip_leading_loop has_prefix in (0, refl, refl)
strip_leading_loop_done (suc rounds) (c ∷ s) h = elim (ℕ_discrete c b'/') [
  | yes e ↦
      let (k, eq, done) = strip_leading_loop_done rounds s (omega arith) in
      subst (λ b. IsLeadingDone (suc rounds) (b ∷ s)) (sym e)
        (suc k, rw loop_slash (ap (◌∷◌ b'/') eq), rw loop_slash done)
  | no n ↦ (0, rw (loop_ne rounds c s n), rw (loop_ne rounds c s n) (has_prefix-slash_ne c s n))
]

-- `StripLeadingSlashes` takes off slashes only, and leaves none in front.
pub strip_leading_slashes_lem :
    (s : Str)
    → (k : ℕ) × (s ≡ replicate k b'/' ++ strip_leading_slashes s)
      × (has_prefix (strip_leading_slashes s) slash ≡ false)
unfolding strip_leading_slashes
strip_leading_slashes_lem s = strip_leading_loop_done (suc (length s)) s (omega arith)

trim_suffix-reverse : (t : Str) → trim_suffix (reverse t) slash ≡ reverse (trim_prefix t slash)
unfolding trim_suffix
trim_suffix-reverse t = rw reverse-reverse

trim_prefix_none : (t : Str) → has_prefix t slash ≡ false → trim_prefix t slash ≡ t
unfolding trim_prefix
trim_prefix_none t h = rw h

trim_prefix-slash : (u : Str) → trim_prefix (b'/' ∷ u) slash ≡ u
unfolding trim_prefix nat_eq
trim_prefix-slash u = refl

trailing_done :
    (rounds : ℕ) (t : Str)
    → has_prefix t slash ≡ false
    → strip_trailing_loop (suc rounds) (reverse t) ≡ reverse t
unfolding strip_trailing_loop
trailing_done rounds t h = rw (trim_suffix-reverse, trim_prefix_none t h, ==_refl)

reverse-slash_ne : (u : Str) → (reverse u == reverse (b'/' ∷ u)) ≡ false
reverse-slash_ne u = elim (Bool-cases (reverse u == reverse (b'/' ∷ u))) [
  | inl e ↦
      let same = ap length ((==_iff (reverse u) (reverse (b'/' ∷ u))).0 e) in
      absurd (omega (arith, length-reverse u, length-reverse {0} (b'/' ∷ u)))
  | inr e ↦ e
]

trailing_slash :
    (rounds : ℕ) (u : Str)
    → strip_trailing_loop (suc rounds) (reverse (b'/' ∷ u)) ≡ strip_trailing_loop rounds (reverse u)
unfolding strip_trailing_loop
trailing_slash rounds u = rw (trim_suffix-reverse, trim_prefix-slash, reverse-slash_ne)

-- The loop at the end of a string is the one at the front of its reverse.
strip_trailing_loop-reverse :
    (rounds : ℕ) (t : Str)
    → strip_trailing_loop rounds (reverse t) ≡ reverse (strip_leading_loop rounds t)
strip_trailing_loop-reverse zero t = unfold strip_trailing_loop strip_leading_loop in refl
strip_trailing_loop-reverse (suc rounds) [] =
    trailing_done rounds [] (unfold has_prefix in refl)
    ∙ unfold strip_leading_loop has_prefix in refl
strip_trailing_loop-reverse (suc rounds) (c ∷ u) = elim (ℕ_discrete c b'/') [
  | yes e ↦
      subst
        (λ b.
          strip_trailing_loop (suc rounds) (reverse (b ∷ u))
          ≡ reverse (strip_leading_loop (suc rounds) (b ∷ u)))
        (sym e) (rw (trailing_slash, loop_slash) (strip_trailing_loop-reverse rounds u))
  | no n ↦ rw (loop_ne rounds c u n) (trailing_done rounds (c ∷ u) (has_prefix-slash_ne c u n))
]

strip_by_loop :
    (s : Str)
    → strip_trailing_slashes s ≡ (if s == slash then s else strip_trailing_loop (suc (length s)) s)
unfolding strip_trailing_slashes
strip_by_loop s = refl

strip_trailing_slashes-reverse :
    (t : Str)
    → reverse t ≢ slash
    → strip_trailing_slashes (reverse t) ≡ reverse (strip_leading_loop (suc (length t)) t)
strip_trailing_slashes-reverse t n = elim (Bool-cases (reverse t == slash)) [
  | inl e ↦ absurd (n ((==_iff (reverse t) slash).0 e))
  | inr e ↦ rw (strip_by_loop, e, length-reverse) (strip_trailing_loop-reverse (suc (length t)) t)
]

abbrev IsStripped : Str → Type 0
IsStripped s =
    (k : ℕ) × (s ≡ strip_trailing_slashes s ++ replicate k b'/')
    × (has_prefix (reverse (strip_trailing_slashes s)) slash ≡ false)

-- Of a string that is not just "/", `StripTrailingSlashes` takes off slashes only, and leaves
-- none at the end.
pub strip_trailing_slashes_lem :
    (s : Str)
    → s ≢ slash
    → (k : ℕ) × (s ≡ strip_trailing_slashes s ++ replicate k b'/')
      × (has_prefix (reverse (strip_trailing_slashes s)) slash ≡ false)
strip_trailing_slashes_lem s n =
    subst IsStripped (reverse-reverse s)
      (go (reverse s) (subst (λ x. x ≢ slash) (sym (reverse-reverse s)) n))
  where
    go : (t : Str) → reverse t ≢ slash → IsStripped (reverse t)
    go t m =
        let (k, eq, done) = strip_leading_loop_done (suc (length t)) t (omega arith) in
        rw (strip_trailing_slashes-reverse t m)
          (k, ap reverse eq ∙ rw (reverse-append, reverse-replicate), rw reverse-reverse done)

-- A second strip changes nothing, whatever the string.
pub strip_trailing_slashes_idem :
    (s : Str) → strip_trailing_slashes (strip_trailing_slashes s) ≡ strip_trailing_slashes s
strip_trailing_slashes_idem s = elim (Bool-cases (s == slash)) [
  | inl e ↦
      subst (λ x. strip_trailing_slashes (strip_trailing_slashes x) ≡ strip_trailing_slashes x)
        (sym ((==_iff s slash).0 e)) (unfold strip_trailing_slashes str_eq in refl)
  | inr e ↦
      let (k, eq, done) =
        strip_trailing_slashes_lem s (λ p. false≢true (sym e ∙ (==_iff s slash).1 p)) in
      stays (strip_trailing_slashes s) done
]
  where
    stays : (r : Str) → has_prefix (reverse r) slash ≡ false → strip_trailing_slashes r ≡ r
    stays r h = elim (Bool-cases (r == slash)) [
      | inl e ↦ rw (strip_by_loop, e)
      | inr e ↦
          rw (strip_by_loop, e)
            (subst (λ x. strip_trailing_loop (suc (length r)) x ≡ x) (reverse-reverse r)
              (trailing_done (length r) (reverse r) h))
    ]
