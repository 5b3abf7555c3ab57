-- ===== src/Crypto.antt =====
-- shared/cryptox/aesgcm.go: field encryption as nonce||ciphertext. A Go string and its bytes hold
-- the same, so a plaintext and its additional data are texts here.
pub mod Laws
pub mod Random
pub mod Tests
use esppdv.Base.{
  ℕ, String, Bool, List, ◌++◌, ◌≡◌, Option, none, some, ltb, length, take, drop, ◌==◌,
  if◌then◌else◌,
}
use esppdv.Text.{Bytes}
use esppdv.Outcome.{Error, failure, Result, ok, err}
use esppdv.Exec.{pure, lift, ◌>>=◌}
use esppdv.World.Sql.{M, rand_read}

-- cipher.AEAD for one key, as crypto/cipher documents it for GCM: Open inverts Seal, and accepts
-- nothing but what Seal gives for the same nonce and additional data.
pub record Aead : Type 0 where
  pub nonce_size : ℕ
  pub seal : Bytes → String → String → Bytes
  pub unseal : Bytes → Bytes → String → Option String
  pub unseal-seal : (n : Bytes) (p aad : String) → unseal n (seal n p aad) aad ≡ some p
  pub seal-unseal : (n c : Bytes) (p aad : String) → unseal n c aad ≡ some p → c ≡ seal n p aad

-- NewAESGCM, over the constructors of crypto/aes and crypto/cipher.
pub new_aes_gcm : (Bytes → Result Aead) → Bytes → Result Aead
new_aes_gcm new_gcm key =
    if length key == 32 then new_gcm key else err (failure "AES-256-GCM requires 32-byte key")

abbrev pub err_ciphertext_too_short : Error
err_ciphertext_too_short = failure "ciphertext too short"

abbrev pub opened : Option String → Result String
opened none = err (failure "cipher: message authentication failed")
opened (some p) = ok p

module _ (gcm : Aead) where
  -- Encrypt, EncryptString
  unfoldable pub encrypt_string : String → String → M Bytes
  encrypt_string plaintext aad = do
    nonce ← rand_read gcm.nonce_size
    pure (nonce ++ gcm.seal nonce plaintext aad)

  -- Decrypt, DecryptString
  unfoldable pub decrypt_string : Bytes → String → Result String
  decrypt_string ciphertext aad =
      let ns = gcm.nonce_size in
      if ltb (length ciphertext) ns
      then err err_ciphertext_too_short
      else opened (gcm.unseal (take ns ciphertext) (drop ns ciphertext) aad)
