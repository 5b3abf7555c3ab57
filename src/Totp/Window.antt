-- ===== src/Totp/Window.antt =====
-- The loop of VerifyTOTP against the set of time steps that it looks at.
use esppdv.Base.{
  ℕ, zero, suc, ◌+◌, ◌*◌, ◌<◌, ℤ, pos, ◌+ℤ◌, ◌*ℤ◌, ◌-ℤ◌, int_laws, String, Bool, true, Option, some,
  ◌≡◌, ◌≢◌, refl, ◌↔◌, ◌⊎◌, inl, inr, arith, eq_iff, none, Bool-cases, str_eq,
}
use esppdv.World.Rows.{Time, Duration}
use esppdv.Totp.{TotpLib, Otp, otp, bad, panic, totp, verify_round, verify_from, int64}

module _ (lib : TotpLib) (secret code : String) (now : Time) (digits : ℕ) (period : Duration) where
  -- The code of the time step `i` periods from now, in int64, is the one given.
  abbrev pub Matches : ℤ → Type 0
  Matches i = totp lib secret (now +ℤ int64 (i *ℤ period)) digits period ≡ otp code

  abbrev pub Runs : ℤ → Type 0
  Runs i = totp lib secret (now +ℤ int64 (i *ℤ period)) digits period ≢ panic

  later : (i : ℤ) (k : ℕ) → i +ℤ pos 1 +ℤ pos k ≡ i +ℤ pos (suc k)
  later i k = omega int_laws

  first : (i : ℤ) → i +ℤ pos 0 ≡ i
  first i = omega int_laws

  round-true :
      (o : Otp) (rest : Option Bool)
      → verify_round lib o code rest ≡ some true
      → (o ≡ otp code) ⊎ (rest ≡ some true)
  round-true panic rest h = cc
  round-true bad rest h = inr h
  round-true (otp s) rest h = ground (arith, eq_iff s code)

  round_hit : (rest : Option Bool) → verify_round lib (otp code) code rest ≡ some true
  round_hit rest = ground (arith, eq_iff code code)

  round_miss :
      (o : Otp) (rest : Option Bool)
      → o ≢ panic
      → rest ≡ some true
      → verify_round lib o code rest ≡ some true
  round_miss panic rest h e = absurd (h refl)
  round_miss bad rest h e = e
  round_miss (otp s) rest h e = ground arith

  verify_from_sound :
      (n : ℕ) (i : ℤ)
      → verify_from lib n i secret code now digits period ≡ some true
      → (k : ℕ) × (k < n) × Matches (i +ℤ pos k)
  unfolding verify_from
  verify_from_sound zero i h = cc
  verify_from_sound (suc n) i h = elim (round-true _ _ h) [
    | inl hit ↦ (0, omega arith, rw (first i) hit)
    | inr rest ↦
        let (k, below, hit) = verify_from_sound n (i +ℤ pos 1) rest in
        (suc k, omega arith, rw (← later i k) hit)
  ]

  verify_from_complete :
      (n : ℕ) (i : ℤ) (k : ℕ)
      → ((j : ℤ) → Runs j)
      → k < n
      → Matches (i +ℤ pos k)
      → verify_from lib n i secret code now digits period ≡ some true
  unfolding verify_from
  verify_from_complete zero i k runs below hit = absurd (omega arith)
  verify_from_complete (suc n) i zero runs below hit = rw (rw (first i) at hit) (round_hit _)
  verify_from_complete (suc n) i (suc k) runs below hit =
      round_miss _ _ (runs i)
        (verify_from_complete n (i +ℤ pos 1) k runs (omega arith) (rw (later i k) hit))

  round-ne-none :
      (o : Otp) (rest : Option Bool) → o ≢ panic → rest ≢ none → verify_round lib o code rest ≢ none
  round-ne-none panic rest h e = absurd (h refl)
  round-ne-none bad rest h e = e
  round-ne-none (otp s) rest h e = elim (Bool-cases (str_eq s code)) [
    | inl k ↦ λ n. cc (rw k at n)
    | inr k ↦ λ n. e (rw k at n)
  ]

  -- The loop ends without a panic.
  pub verify_from-ne-none :
      (n : ℕ) (i : ℤ)
      → ((j : ℤ) → Runs j)
      → verify_from lib n i secret code now digits period ≢ none
  unfolding verify_from
  verify_from-ne-none zero i runs = λ e. cc
  verify_from-ne-none (suc n) i runs =
      round-ne-none _ _ (runs i) (verify_from-ne-none n (i +ℤ pos 1) runs)

  pub verify_steps :
      (w : ℕ)
      → ((j : ℤ) → Runs j)
      → (verify_from lib (2 * w + 1) (pos 0 -ℤ pos w) secret code now digits period ≡ some true)
        ↔ ((k : ℕ) × (k < 2 * w + 1) × Matches (pos k -ℤ pos w))
  verify_steps w runs = (
    λ h.
        let (k, below, hit) = verify_from_sound (2 * w + 1) (pos 0 -ℤ pos w) h in
        (k, below, rw (← from_start k) hit),
    λ (k, below, hit).
        verify_from_complete (2 * w + 1) (pos 0 -ℤ pos w) k runs below (rw (from_start k) hit),
  )
    where
      from_start : (k : ℕ) → pos 0 -ℤ pos w +ℤ pos k ≡ pos k -ℤ pos w
      from_start k = omega int_laws
