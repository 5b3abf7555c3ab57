-- ===== src/Crypto/Laws.antt =====
-- What a stored field gives back, and what is refused.
use esppdv.Base.{
  ℕ, ◌<◌, String, false, ◌++◌, ◌≡◌, ◌↔◌, ap, ◌∙◌, sym, Option, none, some, ltb, length, take, drop,
  arith, Bool-cases, inl, inr, take-append, drop-append, append-take-drop, [], length-append,
  length-take,
}
use esppdv.Text.{Bytes}
use esppdv.Outcome.{ok, err}
use esppdv.Exec.Rules.{bind-ok}
use esppdv.World.{World}
use esppdv.World.Sql.{rand_read}
use esppdv.Crypto.{Aead, opened, err_ciphertext_too_short, encrypt_string, decrypt_string}

pub rand_read-length :
    (n : ℕ) (w : World) {b : Bytes} {w' : World} → rand_read n w ≡ (ok b, w') → length b ≡ n
unfolding rand_read
rand_read-length n w {b} h = elim (Bool-cases (ltb (length w.entropy) n)) [
  | inl short ↦ ground arith
  | inr enough ↦ ground (arith, length-take n w.entropy)
]

take-nonce :
    (gcm : Aead) (nonce c : Bytes)
    → length nonce ≡ gcm.nonce_size
    → take gcm.nonce_size (nonce ++ c) ≡ nonce
take-nonce gcm nonce c h = rw (← h) (take-append nonce c)

drop-nonce :
    (gcm : Aead) (nonce c : Bytes)
    → length nonce ≡ gcm.nonce_size
    → drop gcm.nonce_size (nonce ++ c) ≡ c
drop-nonce gcm nonce c h = rw (← h) (drop-append nonce c)

long_enough :
    (gcm : Aead) (nonce c : Bytes)
    → length nonce ≡ gcm.nonce_size
    → ltb (length (nonce ++ c)) gcm.nonce_size ≡ false
long_enough gcm nonce c h = ground (arith, length-append nonce c)

module _ (gcm : Aead) where
  decrypt-nonce :
      (nonce : Bytes) (p aad : String)
      → length nonce ≡ gcm.nonce_size
      → decrypt_string gcm (nonce ++ gcm.seal nonce p aad) aad ≡ ok p
  unfolding decrypt_string
  decrypt-nonce nonce p aad h = rw (
    long_enough gcm nonce (gcm.seal nonce p aad) h,
    take-nonce gcm nonce (gcm.seal nonce p aad) h,
    drop-nonce gcm nonce (gcm.seal nonce p aad) h,
    gcm.unseal-seal,
  )

  -- What EncryptString returns, DecryptString with the same additional data gives back.
  pub decrypt-encrypt :
      (p aad : String) (w : World) {c : Bytes} {w' : World}
      → encrypt_string gcm p aad w ≡ (ok c, w')
      → decrypt_string gcm c aad ≡ ok p
  unfolding encrypt_string
  decrypt-encrypt p aad w {c} h =
      let (nonce, w1, drawn, sealed) = bind-ok _ _ w h in
      let e : nonce ++ gcm.seal nonce p aad ≡ c = cc sealed in
      rw (← e) (decrypt-nonce nonce p aad (rand_read-length gcm.nonce_size w drawn))

  opened-ok : (o : Option String) (p : String) → opened o ≡ ok p → o ≡ some p
  opened-ok none p h = cc
  opened-ok (some q) p h = cc

  decrypt-ok :
      (c : Bytes) (p aad : String)
      → decrypt_string gcm c aad ≡ ok p
      → let n = gcm.nonce_size in
        (ltb (length c) n ≡ false) × (gcm.unseal (take n c) (drop n c) aad ≡ some p)
  unfolding decrypt_string
  decrypt-ok c p aad h = elim (Bool-cases (ltb (length c) gcm.nonce_size)) [
    | inl short ↦ ground arith
    | inr long ↦ (long, opened-ok _ p (rw long at h))
  ]

  -- DecryptString succeeds exactly on what EncryptString gives for some nonce, the same text and
  -- the same additional data.
  pub decrypt_iff :
      (c : Bytes) (p aad : String)
      → (decrypt_string gcm c aad ≡ ok p)
        ↔ ((nonce : Bytes) × (length nonce ≡ gcm.nonce_size) × (c ≡ nonce ++ gcm.seal nonce p aad))
  decrypt_iff c p aad = (
    λ h.
        let n = gcm.nonce_size in
        let (long, u) = decrypt-ok c p aad h in
        (
          take n c,
          ground (arith, length-take n c),
          sym (append-take-drop n c) ∙ ap (λ l. take n c ++ l) (gcm.seal-unseal _ _ p aad u),
        ),
    λ (nonce, h, e). rw e (decrypt-nonce nonce p aad h),
  )

  -- An empty field cannot be decrypted.
  pub decrypt-nil :
      (aad : String) → 0 < gcm.nonce_size → decrypt_string gcm [] aad ≡ err err_ciphertext_too_short
  unfolding decrypt_string
  decrypt-nil aad h = ground arith
