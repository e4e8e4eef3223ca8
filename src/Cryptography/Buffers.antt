-- ===== src/Cryptography/Buffers.antt =====
-- Encrypted buffers: the nonce in front, and what comes back.
use mathlib.Core.Path.{subst}
use tless.Prelude.{
  ◌<◌, ◌≡◌, Str, true, false, some, ◌++◌, arith, ◌==◌, nat_eq, ==_iff, length, length-append, take,
  drop, take_append, drop_append, ltb, leb,
}
use tless.Cryptography.{
  done, Primitives, IsLawful, aes_key, encrypt_buffer, encrypt_buffer_with_nonce, decrypt_buffer,
  decrypt_buffer_returning_nonce,
}

module _ (P : Primitives) (L : IsLawful P) (key plaintext nonce : Str) (good : aes_key key ≡ true)
    (size : length nonce ≡ 12) where
  abbrev sealed : Str
  sealed = P.gcm_seal key nonce (P.gz plaintext)

  encrypts_to :
      (encrypt_buffer P key plaintext (some nonce) ≡ done (nonce ++ sealed))
      × (encrypt_buffer_with_nonce P key plaintext nonce ≡ done (nonce ++ sealed))
  unfolding encrypt_buffer encrypt_buffer_with_nonce
  encrypts_to =
      let sized : (length nonce == 12) ≡ true = (==_iff (length nonce) 12).1 size in
      (rw (good, sized), rw (good, sized))

  front : take 12 (nonce ++ sealed) ≡ nonce
  front = subst (λ n. take n (nonce ++ sealed) ≡ nonce) size (take_append nonce sealed)

  back : drop 12 (nonce ++ sealed) ≡ sealed
  back = subst (λ n. drop n (nonce ++ sealed) ≡ sealed) size (drop_append nonce sealed)

  long : 12 < length (nonce ++ sealed)
  long = omega (arith, length-append {0} nonce sealed, L.length-gcm_seal key nonce (P.gz plaintext))

  not_short : leb (length (nonce ++ sealed)) 12 ≡ false
  not_short = let h = long in ground arith

  sliceable : ltb (length (nonce ++ sealed)) 12 ≡ false
  sliceable = let h = long in ground arith

  decrypts_to :
      (decrypt_buffer P key (nonce ++ sealed) ≡ done plaintext)
      × (decrypt_buffer_returning_nonce P key (nonce ++ sealed) ≡ done (plaintext, nonce))
  unfolding decrypt_buffer decrypt_buffer_returning_nonce
  decrypts_to = (
    rw (not_short, good, front, back, L.gcm_open-seal, L.gunzip-gz),
    rw (sliceable, good, front, back, L.gcm_open-seal, L.gunzip-gz),
  )

-- With a valid key and a nonce of 12 bytes both encryptions succeed, with one ciphertext, and
-- both decryptions give the text back, the second with the nonce.
pub decrypt-encrypt :
    (P : Primitives) (L : IsLawful P) (key plaintext nonce : Str)
    → aes_key key ≡ true
    → length nonce ≡ 12
    → (ciphertext : Str) × (encrypt_buffer P key plaintext (some nonce) ≡ done ciphertext)
      × (encrypt_buffer_with_nonce P key plaintext nonce ≡ done ciphertext)
      × (decrypt_buffer P key ciphertext ≡ done plaintext)
      × (decrypt_buffer_returning_nonce P key ciphertext ≡ done (plaintext, nonce))
decrypt-encrypt P L key plaintext nonce good size =
    let (a, b) = encrypts_to P L key plaintext nonce good size in
    let (c, d) = decrypts_to P L key plaintext nonce good size in
    (nonce ++ P.gcm_seal key nonce (P.gz plaintext), a, b, c, d)
