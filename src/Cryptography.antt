-- ===== src/Cryptography.antt =====
-- pkg/cryptography/encryption.go. gzip, AES-GCM, AES-GCM-SIV and base64 are parameters; what the
-- code relies on is `IsLawful`. Buffers and keys are lists of bytes, and a slice has no capacity
-- beyond its length.
pub mod Buffers
pub mod Filenames
use tless.Prelude.{
  ℕ, ◌+◌, ◌≤◌, ◌≡◌, Str, Bool, true, false, ◌||◌, Option, none, some, List, [], ◌∷◌, ◌++◌, ltb, leb,
  if◌then◌else◌, ◌==◌, nat_eq, length, take, drop, replicate,
}

-- What a Go function with an error result does: `crash` is a panic or `log.Fatal`, or
-- a call that does not return in the rounds that it is given.
pub data Outcome {ℓ} (A : Type ℓ) : Type ℓ where
  done : A → Outcome A
  failed : Outcome A
  crash : Outcome A

infixl 5 ◌>>=◌
abbrev pub ◌>>=◌ {ℓ κ} : {A : Type ℓ} {B : Type κ} → Outcome A → (A → Outcome B) → Outcome B
done a >>= f = f a
failed >>= f = failed
crash >>= f = crash

-- An error result, and one that ends the program.
abbrev pub or_failed {ℓ} : {A : Type ℓ} → Option A → Outcome A
or_failed none = failed
or_failed (some a) = done a

abbrev pub or_crash {ℓ} : {A : Type ℓ} → Option A → Outcome A
or_crash none = crash
or_crash (some a) = done a

pub record Primitives : Type 0 where
  pub gz : Str → Str
  pub gunzip : Str → Option Str
  -- of the key, the nonce and the text
  pub gcm_seal : Str → Str → Str → Str
  pub gcm_open : Str → Str → Str → Option Str
  -- whether `siv.NewGCM` takes the key
  pub siv_key : Str → Bool
  pub siv_nonce_size : ℕ
  pub siv_seal : Str → Str → Str → Str
  pub siv_open : Str → Str → Str → Option Str
  pub encode_base64 : Str → Str
  pub decode_base64 : Str → Option Str

pub record IsLawful (P : Primitives) : Type 0 where
  pub gunzip-gz : (s : Str) → P.gunzip (P.gz s) ≡ some s
  pub gcm_open-seal : (key nonce s : Str) → P.gcm_open key nonce (P.gcm_seal key nonce s) ≡ some s
  -- the tag
  pub length-gcm_seal : (key nonce s : Str) → 16 ≤ length (P.gcm_seal key nonce s)
  pub siv_open-seal : (key nonce s : Str) → P.siv_open key nonce (P.siv_seal key nonce s) ≡ some s
  pub decode-encode : (s : Str) → P.decode_base64 (P.encode_base64 s) ≡ some s

-- The key lengths that `aes.NewCipher` takes.
abbrev pub aes_key : Str → Bool
aes_key key = length key == 16 || (length key == 24 || length key == 32)

abbrev pub nonce_size : ℕ
nonce_size = 12

module _ (P : Primitives) where
  -- `Seal` panics unless the nonce has its size.
  abbrev seal : Str → Str → Str → Outcome Str
  seal key nonce plaintext =
      if length nonce == nonce_size then done (P.gcm_seal key nonce plaintext) else crash

  -- `random` is the 12 bytes that the random reader yields, or its error.
  unfoldable pub encrypt_buffer : Str → Str → Option Str → Outcome Str
  unfolding nat_eq
  encrypt_buffer key plaintext random =
      if aes_key key
      then (do
        nonce ← or_failed random
        ciphertext ← seal key nonce (P.gz plaintext)
        done (nonce ++ ciphertext))
      else failed

  unfoldable pub encrypt_buffer_with_nonce : Str → Str → Str → Outcome Str
  unfolding nat_eq
  encrypt_buffer_with_nonce key plaintext nonce =
      if aes_key key
      then (do ciphertext ← seal key nonce (P.gz plaintext); done (nonce ++ ciphertext))
      else failed

  unfoldable pub decrypt_buffer : Str → Str → Outcome Str
  unfolding nat_eq
  decrypt_buffer key ciphertext =
      if leb (length ciphertext) 12
      then failed
      else if aes_key key
      then (do
        compressed ← or_failed (P.gcm_open key (take 12 ciphertext) (drop 12 ciphertext))
        or_crash (P.gunzip compressed))
      else failed

  -- The slices at 12 panic on a shorter buffer.
  unfoldable pub decrypt_buffer_returning_nonce : Str → Str → Outcome (Str × Str)
  unfolding nat_eq
  decrypt_buffer_returning_nonce key ciphertext =
      if ltb (length ciphertext) 12
      then crash
      else if aes_key key
      then (do
        compressed ← or_failed (P.gcm_open key (take 12 ciphertext) (drop 12 ciphertext))
        plaintext ← or_crash (P.gunzip compressed)
        done (plaintext, take 12 ciphertext))
      else failed

  -- The nonce of all zeros, which makes equal names equal ciphertexts.
  abbrev fixed_nonce : Str
  fixed_nonce = replicate P.siv_nonce_size 0

  unfoldable pub encrypt_filename : Str → Str → Outcome Str
  encrypt_filename key [] = failed
  encrypt_filename key (c ∷ filename) =
      if P.siv_key key
      then done (P.encode_base64 (P.siv_seal key fixed_nonce (P.gz (c ∷ filename))))
      else failed

  unfoldable pub decrypt_filename : Str → Str → Outcome Str
  decrypt_filename key encrypted_filename_b64 = do
    encrypted_filename ← or_failed (P.decode_base64 encrypted_filename_b64)
    if P.siv_key key
        then (do
          compressed ← or_failed (P.siv_open key fixed_nonce encrypted_filename)
          or_crash (P.gunzip compressed))
        else failed
