-- ===== src/Httpx/RateLimit/Window.antt =====
-- What the limiter lets through in one window.
use esppdv.Base.{
  ℕ, suc, ◌+◌, ℤ, pos, ◌≤ℤ◌, ltb_ℤ, String, Bool, true, false, List, [], ◌∷◌, none, str_eq, ◌==◌,
  ◌≡◌, ◌↔◌, inl, inr, refl, ◌∙◌, arith, if◌then◌else◌, Bool-cases,
}
use esppdv.Httpx.RateLimit.{
  Request, RateLimitConfig, Redis, Verdict, rejected, script, max_of, key_of, skips, rate_limit,
  judged, window_of, milliseconds,
}

-- How many of the requests count for a key.
abbrev pub occurrences : RateLimitConfig → String → List Request → ℕ
occurrences cfg k [] = 0
occurrences cfg k (req ∷ reqs) =
    (if skips cfg.skip req then 0 else if str_eq (key_of cfg req) k then 1 else 0)
    + occurrences cfg k reqs

-- The store after some requests, in order.
abbrev pub after : (r : Redis) → RateLimitConfig → List Request → r.Store → r.Store
after r cfg [] s = s
after r cfg (req ∷ reqs) s = after r cfg reqs (rate_limit r cfg none req s).1

abbrev pub lets_through : Verdict → Bool
lets_through (rejected _ _ _) = false
lets_through _ = true

module _ (r : Redis) where
  count-expiry :
      (b : Bool) (k l : String) (ms : ℤ) (s : r.Store)
      → r.count l (if b then r.pexpire k ms s else s) ≡ r.count l s
  count-expiry true k l ms s = r.count-pexpire k l ms s
  count-expiry false k l ms s = refl

  count-script :
      (k l : String) (ms max : ℤ) (s : r.Store)
      → r.count l (script r k ms max s).1 ≡ (if str_eq k l then suc (r.count l s) else r.count l s)
  unfolding script
  count-script k l ms max s = count-expiry _ k l ms _ ∙ r.count-incr k l s

  count-rate_limit :
      (cfg : RateLimitConfig) (req : Request) (l : String) (s : r.Store)
      → r.count l (rate_limit r cfg none req s).1
        ≡ (if skips cfg.skip req then 0 else if str_eq (key_of cfg req) l then 1 else 0)
          + r.count l s
  unfolding rate_limit
  count-rate_limit cfg req l s = elim (Bool-cases (skips cfg.skip req)) [
    | inl e ↦ rw e (omega arith)
    | inr e ↦
        let counted =
          count-script (key_of cfg req) l (milliseconds (window_of cfg)) (max_of cfg) s in
        elim (Bool-cases (str_eq (key_of cfg req) l)) [
          | inl k ↦ let c = rw k at counted in rw (e, k) (omega (arith, c))
          | inr k ↦ let c = rw k at counted in rw (e, k) (omega (arith, c))
        ]
  ]

  count-after :
      (cfg : RateLimitConfig) (reqs : List Request) (l : String) (s : r.Store)
      → r.count l (after r cfg reqs s) ≡ occurrences cfg l reqs + r.count l s
  count-after cfg [] l s = omega arith
  count-after cfg (req ∷ reqs) l s =
      omega (
        arith,
        count-after cfg reqs l (rate_limit r cfg none req s).1,
        count-rate_limit cfg req l s,
      )

  judged_iff :
      (max cur pttl : ℤ)
      → (lets_through (judged max cur (if ltb_ℤ max cur then pos 0 else pos 1) pttl) ≡ true)
        ↔ (cur ≤ℤ max)
  judged_iff max cur pttl = ground arith

  one_request :
      (cfg : RateLimitConfig) (req : Request) (s : r.Store)
      → skips cfg.skip req ≡ false
      → (lets_through (rate_limit r cfg none req s).0 ≡ true)
        ↔ (pos (suc (r.count (key_of cfg req) s)) ≤ℤ max_of cfg)
  unfolding rate_limit script
  one_request cfg req s counted =
      let k = key_of cfg req in
      let (n, s1) = r.incr k s in
      let s2 = if n == 1 then r.pexpire k (milliseconds (window_of cfg)) s1 else s1 in
      rw (counted, ← r.incr-value k s) (judged_iff (max_of cfg) (pos n) (r.pttl k s2))

  -- While no key expires and the script runs, a request that is not skipped goes on exactly if it
  -- and those before it with the same key, the counter at the start included, are no more than the
  -- maximum; a maximum that is not positive stands for 120.
  pub rate_limit_iff :
      (cfg : RateLimitConfig) (reqs : List Request) (req : Request) (s : r.Store)
      → skips cfg.skip req ≡ false
      → (lets_through (rate_limit r cfg none req (after r cfg reqs s)).0 ≡ true) ↔ (
          pos (suc (occurrences cfg (key_of cfg req) reqs + r.count (key_of cfg req) s))
          ≤ℤ max_of cfg)
  rate_limit_iff cfg reqs req s counted =
      rw (← count-after cfg reqs (key_of cfg req) s)
        (one_request cfg req (after r cfg reqs s) counted)
