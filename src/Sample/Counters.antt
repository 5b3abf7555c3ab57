-- ===== src/Sample/Counters.antt =====
-- A Redis of counters: the store is the list of the keys of all INCR commands.
use esppdv.Base.{ℕ, suc, pos, String, List, [], ◌∷◌, none, str_eq, if◌then◌else◌, refl}
use esppdv.Httpx.RateLimit.{Redis, Request, RateLimitConfig}

abbrev pub counted : String → List String → ℕ
counted k [] = 0
counted k (l ∷ ls) = if str_eq l k then suc (counted k ls) else counted k ls

abbrev pub toy_redis : Redis
toy_redis = record {
  Store = List String;
  incr = λ k s. (suc (counted k s), k ∷ s);
  pexpire = λ k ms s. s;
  pttl = λ k s. pos 1500;
  count = counted;
  incr-value = λ k s. refl;
  count-incr = λ k l s. refl;
  count-pexpire = λ k l ms s. refl;
}

-- Two requests a minute.
abbrev pub two_a_minute : RateLimitConfig
two_a_minute = record {
  service = "auth";
  max = pos 2;
  window = pos 60000000000;
  key = none;
  skip = none;
}

abbrev pub from : String → Request
from ip = record { path = "/login"; ip = ip }
