-- ===== src/Crypto/Random.antt =====
-- Encryption, as an action: it draws random bytes.
use esppdv.Base.{ℕ, length, drop, String, ◌≡◌, ap, ◌∙◌, Bool-cases, inl, inr, ltb}
use esppdv.Text.{Bytes}
use esppdv.Outcome.{Result, ok}
use esppdv.Exec.Rules.{bind-ok}
use esppdv.World.{World}
use esppdv.World.Sql.{rand_read}
use esppdv.World.Quiet.{Quiet, quiet_rules}
use esppdv.World.Inversion.{pure-ok}
use esppdv.Crypto.{Aead, encrypt_string}

pub Quiet-encrypt_string : (gcm : Aead) (p aad : String) → Quiet (encrypt_string gcm p aad)
unfolding encrypt_string
Quiet-encrypt_string gcm p aad = search quiet_rules depth 8

rand_read-entropy :
    (n : ℕ) (w : World) {c : Bytes} {t : World}
    → rand_read n w ≡ (ok c, t)
    → (b : Bytes) × (record w { entropy = b } ≡ t)
unfolding rand_read
rand_read-entropy n w h = elim (Bool-cases (ltb (length w.entropy) n)) [
  | inl e ↦ cc (rw e at h)
  | inr e ↦ (drop n w.entropy, ap (λ (p : Result Bytes × World). p.1) (rw e at h))
]

-- Encryption takes random bytes, and changes nothing else.
pub encrypt_string-entropy :
    (gcm : Aead) (p aad : String) (w : World) {c : Bytes} {t : World}
    → encrypt_string gcm p aad w ≡ (ok c, t)
    → (b : Bytes) × (record w { entropy = b } ≡ t)
unfolding encrypt_string
encrypt_string-entropy gcm p aad w h =
    let (nonce, w1, drawn, sealed) = bind-ok _ _ w h in
    let (_, same) = pure-ok _ w1 sealed in
    let (b, e) = rand_read-entropy gcm.nonce_size w drawn in (b, e ∙ same)
