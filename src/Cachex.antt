-- ===== src/Cachex.antt =====
-- shared/cachex/cache.go over a Redis client, a parameter that acts on a state `R` of its own.
-- A value is its text. A cache is its prefix; a nil *Cache is `none`.
use esppdv.Base.{String, Option, none, some, List, [], ◌∷◌, str_eq, if◌then◌else◌}
use esppdv.Text.{◌+++◌}
use esppdv.Outcome.{Result}
use esppdv.Exec.{Exec, pure, lift, attempt, ◌>>=◌, ◌>>◌}
use esppdv.World.Rows.{Duration}

-- GET, with `none` for redis.Nil; SET with an expiry; DEL.
pub record RedisLib (R : Type 0) : Type 0 where
  pub get : String → Exec R (Option String)
  pub set : String → String → Duration → Exec R (Unit {0})
  pub del : List String → Exec R (Unit {0})

-- Cache.key
abbrev pub key : String → String → String
key prefix k = if str_eq prefix "" then k else prefix +++ ":" +++ k

abbrev pub keys : String → List String → List String
keys prefix [] = []
keys prefix (k ∷ ks) = key prefix k ∷ keys prefix ks

module _ {R : Type 0} (redis : RedisLib R) where
  -- Get
  unfoldable pub get : Option String → String → Exec R (Option String)
  get none k = pure none
  get (some prefix) k = redis.get (key prefix k)

  -- Set
  unfoldable pub set : Option String → String → String → Duration → Exec R (Unit {0})
  set none k v ttl = pure tt
  set (some prefix) k v ttl = redis.set (key prefix k) v ttl

  -- Del
  unfoldable pub del : Option String → List String → Exec R (Unit {0})
  del none ks = pure tt
  del (some prefix) [] = pure tt
  del (some prefix) (k ∷ ks) = redis.del (keys prefix (k ∷ ks))

module _ {R A : Type 0} (redis : RedisLib R) where
  -- A text that is no JSON is deleted, and counts as missing.
  abbrev parsed : Option String → String → Option A → Exec R (Option A)
  parsed cache k none = attempt (del redis cache (k ∷ [])) >> pure none
  parsed cache k (some a) = pure (some a)

  abbrev found : (String → Option A) → Option String → String → Option String → Exec R (Option A)
  found unmarshal cache k none = pure none
  found unmarshal cache k (some v) = parsed cache k (unmarshal v)

  -- GetJSON
  unfoldable pub get_json : (String → Option A) → Option String → String → Exec R (Option A)
  get_json unmarshal cache k = get redis cache k >>= λ v. found unmarshal cache k v

  -- SetJSON
  unfoldable pub set_json :
      (A → Result String) → Option String → String → A → Duration → Exec R (Unit {0})
  set_json marshal none k a ttl = pure tt
  set_json marshal (some prefix) k a ttl = lift (marshal a) >>= λ v. set redis (some prefix) k v ttl
