-- ===== src/Backup/Nonce.antt =====
-- pkg/backup/backup.go and restore.go: the nonces of the chunks of one file. The bytes of a nonce are
-- a number, the first byte its highest; `math/big` is written out on such numbers.
use mathlib.Core.Path.{subst}
use tless.Prelude.{
  ℕ, zero, suc, ◌+◌, ◌*◌, ◌/◌, ◌%◌, ◌^◌, ◌<◌, ◌≡◌, refl, Str, Bool, true, [], ◌∷◌, ◌++◌, arith, ltb,
  if◌then◌else◌, ◌==◌, nat_eq, ==_iff, length, length-append, sym, ◌∙◌, ◌⊎◌, inl, inr, Bool-cases,
  ltb→lt, ltb→ge, ◌≤◌,
}
use tless.Cryptography.{Outcome, done, crash}

-- `SetBytes`, with the number that the bytes before these make.
abbrev pub set_bytes : ℕ → Str → ℕ
set_bytes n [] = n
set_bytes n (b ∷ bytes) = set_bytes (n * 256 + b) bytes

-- `FillBytes`, to a number of bytes: what does not fit is cut off.
abbrev fill_bytes : ℕ → ℕ → Str
fill_bytes zero n = []
fill_bytes (suc size) n = fill_bytes size (n / 256) ++ (n % 256 ∷ [])

-- `FillBytes` panics when the number has more than 12 bytes.
unfoldable pub increment_nonce : Str → Outcome Str
increment_nonce nonce =
    let z = set_bytes 0 nonce + 1 in if ltb z (256 ^ 12) then done (fill_bytes 12 z) else crash

unfoldable pub is_nonce_one_more_than_prev : Str → Str → Bool
unfolding nat_eq
is_nonce_one_more_than_prev nonce prev_nonce = set_bytes 0 prev_nonce + 1 == set_bytes 0 nonce

length-fill_bytes : (size n : ℕ) → length (fill_bytes size n) ≡ size
length-fill_bytes zero n = refl
length-fill_bytes (suc size) n = omega (
  arith,
  length-append (fill_bytes size (n / 256)) (n % 256 ∷ []),
  length-fill_bytes size (n / 256),
)

set_bytes-append :
    (m b : ℕ) (bytes : Str) → set_bytes m (bytes ++ (b ∷ [])) ≡ set_bytes m bytes * 256 + b
set_bytes-append m b [] = refl
set_bytes-append m b (c ∷ bytes) = set_bytes-append (m * 256 + c) b bytes

quotient_bound : (n p : ℕ) → n < p * 256 → n / 256 < p
quotient_bound n p h = omega arith

pow_step : (size : ℕ) → 256 ^ suc size ≡ 256 ^ size * 256
pow_step size = omega arith

set_bytes-fill_bytes : (size n : ℕ) → n < 256 ^ size → set_bytes 0 (fill_bytes size n) ≡ n
set_bytes-fill_bytes zero n h = omega arith
set_bytes-fill_bytes (suc size) n h =
    let ih : set_bytes 0 (fill_bytes size (n / 256)) ≡ n / 256 =
      set_bytes-fill_bytes size (n / 256)
        (quotient_bound n (256 ^ size) (subst (λ k. n < k) (pow_step size) h)) in
    set_bytes-append 0 (n % 256) (fill_bytes size (n / 256)) ∙ omega (arith, ih)

-- The next nonce has 12 bytes, its number is one more, and the restore takes it for the next one;
-- where that number needs a thirteenth byte the program panics.
pub increment_nonce_lem :
    (nonce : Str)
    → ((set_bytes 0 nonce + 1 < 256 ^ 12)
        × ((next : Str) × (increment_nonce nonce ≡ done next)
            × (length next ≡ 12)
            × (set_bytes 0 next ≡ set_bytes 0 nonce + 1)
            × (is_nonce_one_more_than_prev next nonce ≡ true)))
      ⊎ ((256 ^ 12 ≤ set_bytes 0 nonce + 1) × (increment_nonce nonce ≡ crash))
unfolding increment_nonce is_nonce_one_more_than_prev
increment_nonce_lem nonce =
    let z = set_bytes 0 nonce + 1 in
    elim (Bool-cases (ltb z (256 ^ 12))) [
      | inl e ↦
          let h = ltb→lt z (256 ^ 12) e in
          let back = set_bytes-fill_bytes 12 z h in
          inl (h, (fill_bytes 12 z, rw e, length-fill_bytes 12 z, back, (==_iff z _).1 (sym back)))
      | inr e ↦ inr (ltb→ge z (256 ^ 12) e, rw e)
    ]
