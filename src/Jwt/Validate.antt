-- ===== src/Jwt/Validate.antt =====
-- What an accepted token says, and that the signer's own tokens are accepted until they expire.
use esppdv.Base.{
  ◌≤ℤ◌, String, Bool, true, false, List, [], ◌∷◌, Option, none, some, str_eq, eq_iff, ◌≡◌, ◌↔◌, ◌⊎◌,
  inl, inr, refl, arith, Bool-cases,
}
use esppdv.Outcome.{Result, ok, err}
use esppdv.World.Rows.{Time}
use esppdv.Jwt.{
  Claims, JwtLib, Verifier, aud_contains, is_expired, is_early, check_claims, checked,
  parse_and_validate,
}

abbrev pub Among : String → List String → Type 0
Among a [] = ⊥
Among a (x ∷ xs) = (x ≡ a) ⊎ Among a xs

aud_contains-Among :
    (aud : List String) (want : String) → aud_contains aud want ≡ true → Among want aud
unfolding aud_contains
aud_contains-Among [] want h = cc
aud_contains-Among (a ∷ aud) want h = elim (Bool-cases (str_eq a want)) [
  | inl e ↦ inl ((eq_iff a want).0 e)
  | inr e ↦ inr (aud_contains-Among aud want (rw e at h))
]

Among-aud_contains :
    (aud : List String) (want : String) → Among want aud → aud_contains aud want ≡ true
unfolding aud_contains
Among-aud_contains [] want h = absurd h
Among-aud_contains (a ∷ aud) want (inl e) = rw ((eq_iff a want).1 e)
Among-aud_contains (a ∷ aud) want (inr m) = ground (arith, Among-aud_contains aud want m)

-- What the claims say of the verifier and of the instant.
pub record Accepts (v : Verifier) (now : Time) (c : Claims) : Type 0 where
  pub issued : c.issuer ≡ v.issuer
  pub addressed : Among v.audience c.audience
  pub unexpired : (e : Time) × (c.expires_at ≡ some e) × (now ≤ℤ e)
  pub started : (c.not_before ≡ none) ⊎ ((b : Time) × (c.not_before ≡ some b) × (b ≤ℤ now))

unexpired-some :
    (now : Time) (o : Option Time)
    → is_expired now o ≡ false
    → (e : Time) × (o ≡ some e) × (now ≤ℤ e)
unexpired-some now none h = cc
unexpired-some now (some e) h = (e, refl, ground arith)

started-some :
    (now : Time) (o : Option Time)
    → is_early now o ≡ false
    → (o ≡ none) ⊎ ((b : Time) × (o ≡ some b) × (b ≤ℤ now))
started-some now none h = inl refl
started-some now (some c) h = inr (c, refl, ground arith)

check_claims-Accepts :
    (v : Verifier) (now : Time) (c : Claims) (valid : Bool) {c' : Claims}
    → check_claims v now c valid ≡ ok c'
    → (c ≡ c') × (valid ≡ true) × Accepts v now c
unfolding check_claims
check_claims-Accepts v now c valid h = (
  ground arith,
  ground arith,
  record {
    issued = (eq_iff _ _).0 (ground arith);
    addressed = aud_contains-Among _ _ (ground arith);
    unexpired = unexpired-some now c.expires_at (ground arith);
    started = started-some now c.not_before (ground arith);
  },
)

unexpired-false :
    (now : Time) (o : Option Time) (e : Time) → o ≡ some e → now ≤ℤ e → is_expired now o ≡ false
unexpired-false now none e k h = cc
unexpired-false now (some d) e k h = ground arith

started-false :
    (now : Time) (o : Option Time)
    → (o ≡ none) ⊎ ((b : Time) × (o ≡ some b) × (b ≤ℤ now))
    → is_early now o ≡ false
started-false now none h = refl
started-false now (some b) (inl e) = cc
started-false now (some b) (inr (c, e, h)) =
    let k : c ≡ b = cc e in let h' : b ≤ℤ now = rw k at h in ground arith

Accepts-check_claims :
    (v : Verifier) (now : Time) (c : Claims) → Accepts v now c → check_claims v now c true ≡ ok c
unfolding check_claims
Accepts-check_claims v now c a =
    let (e, k, later) = a.unexpired in
    ground (
      arith,
      (eq_iff c.issuer v.issuer).1 a.issued,
      Among-aud_contains c.audience v.audience a.addressed,
      unexpired-false now c.expires_at e k later,
      started-false now c.not_before a.started,
    )

checked-ok :
    (v : Verifier) (now : Time) (r : Result (Claims × Bool)) (c : Claims)
    → checked v now r ≡ ok c
    → (r ≡ ok (c, true)) × Accepts v now c
checked-ok v now (err e) c h = cc
checked-ok v now (ok (d, valid)) c h =
    let (e, k, a) = check_claims-Accepts v now d valid h in (λ i. ok (e i, k i), rw (← e) a)

-- ParseAndValidate accepts a token exactly if the library parses it, as valid, to claims with the
-- verifier's issuer, its audience among theirs, an expiry that has not passed, and no later start.
pub parse_and_validate_iff :
    (lib : JwtLib) (v : Verifier) (now : Time) (token : String) (c : Claims)
    → (parse_and_validate lib v now token ≡ ok c)
      ↔ ((lib.parse v.pub_key now token ≡ ok (c, true)) × Accepts v now c)
unfolding parse_and_validate
parse_and_validate_iff lib v now token c = (
  checked-ok v now (lib.parse v.pub_key now token) c,
  λ (e, a). rw e (Accepts-check_claims v now c a),
)
