-- ===== src/Crypto/Tests.antt =====
-- Encryption with the toy cipher.
use esppdv.Base.{refl, ◌≡◌, ◌↔◌, ◌++◌, [], ◌∷◌, length}
use esppdv.Text.{Bytes}
use esppdv.Outcome.{Result, ok}
use esppdv.Exec.{◌>>=◌}
use esppdv.World.{World}
use esppdv.World.Sql.{rand_read}
use esppdv.Crypto.{encrypt_string, decrypt_string}
use esppdv.Crypto.Laws.{decrypt-encrypt, decrypt_iff}
use esppdv.Sample.Cipher.{toy_gcm}
use esppdv.Sample.Data.{sample_world}

abbrev after : World
after = (encrypt_string toy_gcm "ab" "x" sample_world).1

encrypt_runs :
    ◌≡◌ {A = Result Bytes × World}
      (encrypt_string toy_gcm "ab" "x" sample_world)
      (ok (1 ∷ 97 ∷ 98 ∷ []), after)
unfolding encrypt_string ◌>>=◌ rand_read
encrypt_runs = refl

decrypt-encrypt_example : decrypt_string toy_gcm (1 ∷ 97 ∷ 98 ∷ []) "x" ≡ ok "ab"
decrypt-encrypt_example = decrypt-encrypt toy_gcm "ab" "x" sample_world encrypt_runs

decrypt_iff_example : (decrypt_string toy_gcm (1 ∷ 97 ∷ 98 ∷ []) "x" ≡ ok "ab") ↔ (
    (nonce : Bytes) × (length nonce ≡ 1)
    × (1 ∷ 97 ∷ 98 ∷ [] ≡ nonce ++ toy_gcm.seal nonce "ab" "x"))
decrypt_iff_example = decrypt_iff toy_gcm (1 ∷ 97 ∷ 98 ∷ []) "ab" "x"
