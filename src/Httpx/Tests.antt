-- ===== src/Httpx/Tests.antt =====
-- A request through the middleware.
use esppdv.Base.{refl, ◌≡◌, true, some, String}
use esppdv.Base.{none, suc, ◌+◌, ◌-ℤ◌, pos, ◌≤ℤ◌, ◌↔◌, [], ◌∷◌}
use esppdv.Httpx.RateLimit.{rate_limit, script, key_of, max_of, rejected}
use esppdv.Httpx.RateLimit.Window.{lets_through, after, occurrences, rate_limit_iff}
use esppdv.Sample.Counters.{toy_redis, two_a_minute, from}
use esppdv.Outcome.{Result, ok}
use esppdv.Exec.{pure, ◌>>=◌}
use esppdv.Text.{equal_fold, split_space, to_lower}
use esppdv.World.{World}
use esppdv.World.Sql.{M}
use esppdv.Jwt.{Claims, parse_and_validate, check_claims, aud_contains}
use esppdv.Httpx.{Locals, authenticate, jwt_auth, auth_from_locals, locals_of}
use esppdv.Httpx.Auth.{Admitted, identity, jwt_auth-Admitted}
use esppdv.Sample.Data.{toy_jwt, sample_verifier, sample_world}

abbrev handled : Locals → M String
handled l = pure "done"

jwt_auth_runs :
    ◌≡◌ {A = Result String × World}
      (jwt_auth toy_jwt sample_verifier true "bearer access" handled sample_world)
      (ok "done", sample_world)
unfolding jwt_auth ◌>>=◌ authenticate split_space equal_fold to_lower parse_and_validate
    check_claims aud_contains
jwt_auth_runs = refl

jwt_auth-Admitted_example :
    (c : Claims) × Admitted toy_jwt sample_verifier true sample_world.now "bearer access" c
    × (auth_from_locals (locals_of c) ≡ some (identity c))
    × (handled (locals_of c) sample_world ≡ (ok "done", sample_world))
jwt_auth-Admitted_example =
    jwt_auth-Admitted toy_jwt sample_verifier true "bearer access" handled sample_world sample_world
      "done" jwt_auth_runs

rate_limit_iff_example :
    (lets_through
        (rate_limit toy_redis two_a_minute none
          (from "a")
          (after toy_redis two_a_minute (from "a" ∷ from "b" ∷ []) [])).0
      ≡ true)
    ↔ (pos (
          suc (
            occurrences two_a_minute (key_of two_a_minute (from "a")) (from "a" ∷ from "b" ∷ [])
            + toy_redis.count (key_of two_a_minute (from "a")) []))
        ≤ℤ max_of two_a_minute)
rate_limit_iff_example =
    rate_limit_iff toy_redis two_a_minute (from "a" ∷ from "b" ∷ []) (from "a") [] refl

-- The second request of a passes and the third is told to wait two seconds.
third :
    (rate_limit toy_redis two_a_minute none
      (from "a")
      (after toy_redis two_a_minute (from "a" ∷ from "b" ∷ from "a" ∷ []) [])).0
    ≡ rejected (pos 2) (pos 0) 2
unfolding rate_limit script ◌-ℤ◌
third = refl
