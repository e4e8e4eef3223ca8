-- ===== src/Cryptography/Filenames.antt =====
-- Encrypted file names: what comes back, and which names share an object.
use tless.Prelude.{◌≡◌, refl, ◌≢◌, Str, true, [], ◌∷◌, replicate}
use tless.Cryptography.{done, failed, Primitives, IsLawful, encrypt_filename, decrypt_filename}

-- What `EncryptFilename` returns, `DecryptFilename` takes back to the name. It returns something
-- for each name that is not empty, under a key that the cipher takes, and fails on the empty one.
pub decrypt-encrypt_filename :
    (P : Primitives) (L : IsLawful P) (key filename : Str)
    → P.siv_key key ≡ true
    → (encrypt_filename P key [] ≡ failed)
      × (filename ≢ []
          → (encrypted : Str) × (encrypt_filename P key filename ≡ done encrypted)
            × (decrypt_filename P key encrypted ≡ done filename))
unfolding encrypt_filename decrypt_filename
decrypt-encrypt_filename P L key [] good = (refl, λ h. absurd (h refl))
decrypt-encrypt_filename P L key (c ∷ filename) good = (
  refl,
  λ h. (
    P.encode_base64 (P.siv_seal key (replicate P.siv_nonce_size 0) (P.gz (c ∷ filename))),
    rw good,
    rw (L.decode-encode, good, L.siv_open-seal, L.gunzip-gz),
  ),
)
