-- ===== src/Httpx/RateLimit.antt =====
-- shared/httpx/httpx.go: RateLimit with Redis, and its Lua script. Without Redis it hands over to
-- the limiter of Fiber.
pub mod Window
use esppdv.Base.{
  ℕ, suc, ◌+◌, ◌/◌, ℤ, pos, ◌-ℤ◌, pos_part, leb_ℤ, ltb_ℤ, String, Bool, true, false, ◌||◌, List, [],
  ◌∷◌, Option, none, some, str_eq, eqb_ℤ, leb, ltb, ◌==◌, ◌≡◌, if◌then◌else◌,
}
use esppdv.Text.{◌+++◌}
use esppdv.Decimal.{parse_int}
use esppdv.Outcome.{Error, Result, ok, err}
use esppdv.World.Rows.{Duration}

-- What the limiter reads of a request.
pub record Request : Type 0 where
  pub path : String
  pub ip : String

pub record RateLimitConfig : Type 0 where
  pub service : String
  pub max : ℤ
  pub window : Duration
  pub key : Option (Request → String)
  pub skip : Option (Request → Bool)

-- A Redis server at a time at which no key expires: the commands INCR, PEXPIRE and PTTL, and what
-- GET reads of a counter, 0 where there is none.
pub record Redis : Type 1 where
  pub Store : Type 0
  pub incr : String → Store → ℕ × Store
  pub pexpire : String → ℤ → Store → Store
  pub pttl : String → Store → ℤ
  pub count : String → Store → ℕ
  pub incr-value : (k : String) (s : Store) → (incr k s).0 ≡ suc (count k s)
  pub count-incr :
      (k l : String) (s : Store)
      → count l (incr k s).1 ≡ (if str_eq k l then suc (count l s) else count l s)
  pub count-pexpire : (k l : String) (ms : ℤ) (s : Store) → count l (pexpire k ms s) ≡ count l s

-- A value of a script's reply, as go-redis gives it.
pub data Value : Type 0 where
  int64_value : ℤ → Value
  text_value : String → Value
  other_value : Value

-- toInt64, without its success flag, which the limiter drops; int and uint64 do not come from Redis.
abbrev number_or_zero : Option ℤ → ℤ
number_or_zero none = pos 0
number_or_zero (some i) = i

abbrev pub to_int64 : Value → ℤ
to_int64 (int64_value i) = i
to_int64 (text_value s) = number_or_zero (parse_int s)
to_int64 other_value = pos 0

-- The defaults of the configuration.
abbrev pub max_of : RateLimitConfig → ℤ
max_of cfg = if leb_ℤ cfg.max (pos 0) then pos 120 else cfg.max

abbrev pub window_of : RateLimitConfig → Duration
window_of cfg = if leb_ℤ cfg.window (pos 0) then pos 60000000000 else cfg.window

abbrev key_by : Option (Request → String) → Request → String
key_by none req = req.ip
key_by (some f) req = f req

abbrev pub skips : Option (Request → Bool) → Request → Bool
skips none req = str_eq req.path "/healthz" || str_eq req.path "/metrics"
skips (some f) req = f req

abbrev pub key_of : RateLimitConfig → Request → String
key_of cfg req =
    let identity = key_by cfg.key req in
    "rl:" +++ cfg.service +++ ":" +++ (if str_eq identity "" then "unknown" else identity)

-- The script: the counter, whether it is within the maximum, and the time that is left.
unfoldable pub script : (r : Redis) → String → ℤ → ℤ → r.Store → List Value × r.Store
script r key ttl_ms max s =
    let (current, s1) = r.incr key s in
    let s2 = if current == 1 then r.pexpire key ttl_ms s1 else s1 in
    let allowed = if ltb_ℤ max (pos current) then pos 0 else pos 1 in
    (int64_value (pos current) ∷ int64_value allowed ∷ int64_value (r.pttl key s2) ∷ [], s2)

-- What becomes of a request: it goes on, without or with the headers for the limit and what
-- remains of it, or ends in status 429 with the seconds to wait.
pub data Verdict : Type 0 where
  passes : Verdict
  passes_with : ℤ → ℤ → Verdict
  rejected : ℤ → ℤ → ℕ → Verdict

abbrev pub remaining : ℤ → ℤ → ℤ
remaining max cur = if ltb_ℤ (max -ℤ cur) (pos 0) then pos 0 else max -ℤ cur

-- Seconds, rounded up; the division of floats is exact enough for any time below 2^52 ms.
abbrev pub retry_after : ℤ → ℕ
retry_after pttl = (pos_part pttl + 999) / 1000

abbrev pub judged : ℤ → ℤ → ℤ → ℤ → Verdict
judged max cur allowed pttl =
    if eqb_ℤ allowed (pos 0)
    then rejected max (remaining max cur) (retry_after pttl)
    else passes_with max (remaining max cur)

-- A reply of fewer than three values lets the request go on.
abbrev pub judge : ℤ → List Value → Verdict
judge max (cur ∷ allowed ∷ pttl ∷ _) = judged max (to_int64 cur) (to_int64 allowed) (to_int64 pttl)
judge max _ = passes

abbrev pub answered : ℤ → Result (List Value) → Verdict
answered max (err e) = passes
answered max (ok values) = judge max values

abbrev pub run_script :
    (r : Redis) → Option Error → String → ℤ → ℤ → r.Store → Result (List Value) × r.Store
run_script r (some e) key ttl_ms max s = (err e, s)
run_script r none key ttl_ms max s = let (values, s') = script r key ttl_ms max s in (ok values, s')

abbrev pub milliseconds : ℤ → ℤ
milliseconds d = pos (pos_part d / 1000000)

-- The handler; `fault` is an error that keeps the script from running.
unfoldable pub rate_limit :
    (r : Redis) → RateLimitConfig → Option Error → Request → r.Store → Verdict × r.Store
rate_limit r cfg fault req s =
    let max = max_of cfg in
    let (res, s') = run_script r fault (key_of cfg req) (milliseconds (window_of cfg)) max s in
    if skips cfg.skip req then (passes, s) else (answered max res, s')
