-- ===== src/Wallet/Crypto/Laws.antt =====
-- The iterations of the key derivation, what a returned master key satisfies, and the part of the
-- initialisation vector that `decrypt_secret` uses.
use zewif_zcashd.Base.{
  ℕ, zero, suc, ◌-◌, ◌≤◌, ◌≡◌, refl, ap, ◌∙◌, ◌++◌, Option, some, ok, length, take, drop,
  take-append, length-append, arith,
}
use zewif_zcashd.Wire.Parser.{Bytes}
use zewif_zcashd.Wallet.Crypto.{
  MasterKeyParams, rehash, bytes_to_key_sha512, aes256_cbc_decrypt, decrypt_secret,
  decrypt_master_key,
}

-- `n` applications of a function.
unfoldable pub iterate {ℓ} : {A : Type ℓ} → ℕ → (A → A) → A → A
iterate zero f a = a
iterate (suc n) f a = f (iterate n f a)

iterate-step {ℓ} : {A : Type ℓ} (n : ℕ) (f : A → A) (a : A) → iterate n f (f a) ≡ f (iterate n f a)
unfolding iterate
iterate-step zero f a = refl
iterate-step (suc n) f a = ap f (iterate-step n f a)

rehash-iterate :
    (sha512 : Bytes → Bytes) (n : ℕ) (buf : Bytes) → rehash sha512 n buf ≡ iterate n sha512 buf
unfolding rehash iterate
rehash-iterate sha512 zero buf = refl
rehash-iterate sha512 (suc n) buf = rehash-iterate sha512 n (sha512 buf) ∙ iterate-step n sha512 buf

-- For a positive count the derived key and vector are the first 32 and the next 16 bytes of that
-- many applications of the hash to the passphrase followed by the salt.
pub bytes_to_key_sha512-iterate :
    (sha512 : Bytes → Bytes) (salt passphrase : Bytes) (count : ℕ)
    → 1 ≤ count
    → let digest = iterate count sha512 (passphrase ++ salt) in
      bytes_to_key_sha512 sha512 salt passphrase count ≡ (take 32 digest, take 16 (drop 32 digest))
unfolding bytes_to_key_sha512 iterate
bytes_to_key_sha512-iterate sha512 salt passphrase count positive =
    let n : ℕ = count - 1 in
    let same : rehash sha512 n (sha512 (passphrase ++ salt))
        ≡ iterate (suc n) sha512 (passphrase ++ salt) =
      rehash-iterate sha512 n (sha512 (passphrase ++ salt))
      ∙ iterate-step n sha512 (passphrase ++ salt) in
    let whole : suc n ≡ count = omega arith in
    ap (λ d. (take 32 d, take 16 (drop 32 d)))
      (same ∙ ap (λ k. iterate k sha512 (passphrase ++ salt)) whole)

module _ (sha512 : Bytes → Bytes)
    (decrypt_padded : (key iv ciphertext : Bytes) → Option Bytes) where
  -- A master key that decrypt_master_key returns has 32 bytes and is what the cipher gives for the
  -- ciphertext under the derived key and vector, and the method is 0, the count is positive and the
  -- salt has 8 bytes.
  pub decrypt_master_key-eq-ok :
      (params : MasterKeyParams) (passphrase key : Bytes)
      → decrypt_master_key decrypt_padded sha512 params passphrase ≡ ok key
      → let (k, iv) = bytes_to_key_sha512 sha512 params.salt passphrase params.derive_iterations in
        (length key ≡ 32)
        × (decrypt_padded k iv params.encrypted_key ≡ some key)
        × (params.derivation_method ≡ 0)
        × (1 ≤ params.derive_iterations)
        × (length params.salt ≡ 8)
  unfolding decrypt_master_key aes256_cbc_decrypt
  decrypt_master_key-eq-ok params passphrase key e = ground arith

  -- The result of decrypt_secret is the same for two sources of the vector that agree in their
  -- first 16 bytes.
  pub decrypt_secret-iv :
      (master_key ciphertext iv a b : Bytes)
      → length iv ≡ 16
      → decrypt_secret decrypt_padded master_key ciphertext (iv ++ a)
        ≡ decrypt_secret decrypt_padded master_key ciphertext (iv ++ b)
  unfolding decrypt_secret
  decrypt_secret-iv master_key ciphertext iv a b h =
      let left : take 16 (iv ++ a) ≡ iv = ground (arith, take-append iv a) in
      let right : take 16 (iv ++ b) ≡ iv = ground (arith, take-append iv b) in
      ground (arith, length-append iv a, length-append iv b)
