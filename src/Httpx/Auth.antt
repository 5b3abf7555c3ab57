-- ===== src/Httpx/Auth.antt =====
-- What a handler behind JWTAuth may rely on.
use esppdv.Base.{
  String, Bool, true, false, Option, none, some, ◌≡◌, refl, ap, sym, ◌∙◌, str_eq, eq_iff,
  Bool-cases, ◌⊎◌, inl, inr,
}
use esppdv.Text.{equal_fold, split_space}
use esppdv.Outcome.{Result, ok, err}
use esppdv.World.{World}
use esppdv.World.Rows.{Time}
use esppdv.World.Sql.{M}
use esppdv.World.Inversion.{lift-elim}
use esppdv.Jwt.{Claims, JwtLib, Verifier, token_type_access, parse_and_validate}
use esppdv.Jwt.Validate.{Accepts, parse_and_validate_iff}
use esppdv.Httpx.{
  AuthInfo, Locals, locals_of, bearer, access_checked, token_checked, authenticate, jwt_auth,
  auth_from_locals,
}

-- What the middleware has checked of the header.
pub record Admitted (lib : JwtLib) (v : Verifier) (require_access : Bool) (now : Time)
    (header : String) (c : Claims) : Type 0 where
  pub scheme : String
  pub token : String
  pub parts : split_space header ≡ some (scheme, token)
  pub is_bearer : equal_fold scheme "Bearer" ≡ true
  pub accepts : Accepts v now c
  pub parsed : lib.parse v.pub_key now token ≡ ok (c, true)
  pub access : (require_access ≡ false) ⊎ (c.token_type ≡ token_type_access)

bearer-ok :
    (o : Option (String × String)) (token : String)
    → bearer o ≡ ok token
    → (scheme : String) × (o ≡ some (scheme, token)) × (equal_fold scheme "Bearer" ≡ true)
bearer-ok none token h = cc
bearer-ok (some (scheme, t)) token h = elim (Bool-cases (equal_fold scheme "Bearer")) [
  | inl e ↦ let same : t ≡ token = cc (rw e at h) in (scheme, ap (λ t. some (scheme, t)) same, e)
  | inr e ↦ cc (rw e at h)
]

access_checked-ok :
    (lib : JwtLib) (v : Verifier) (require_access : Bool) (r : Result Claims) (c : Claims)
    → access_checked lib v require_access r ≡ ok c
    → (r ≡ ok c) × ((require_access ≡ false) ⊎ (c.token_type ≡ token_type_access))
access_checked-ok lib v require_access (err e) c h = cc
access_checked-ok lib v false (ok d) c h = (h, inl refl)
access_checked-ok lib v true (ok d) c h =
    elim (Bool-cases (str_eq d.token_type token_type_access)) [
      | inl e ↦
          let same : ◌≡◌ {A = Result Claims} (ok d) (ok c) = rw e at h in
          let e' : d ≡ c = cc same in
          (same, inr (ap (λ (x : Claims). x.token_type) (sym e') ∙ (eq_iff _ _).0 e))
      | inr e ↦ cc (rw e at h)
    ]

token_checked-ok :
    (lib : JwtLib) (v : Verifier) (require_access : Bool) (now : Time) (r : Result String)
    (c : Claims)
    → token_checked lib v require_access now r ≡ ok c
    → (token : String) × (r ≡ ok token)
      × (parse_and_validate lib v now token ≡ ok c)
      × ((require_access ≡ false) ⊎ (c.token_type ≡ token_type_access))
token_checked-ok lib v require_access now (err e) c h = cc
token_checked-ok lib v require_access now (ok token) c h =
    let (valid, access) = access_checked-ok lib v require_access _ c h in
    (token, refl, valid, access)

authenticate-Admitted :
    (lib : JwtLib) (v : Verifier) (require_access : Bool) (now : Time) (header : String)
    (c : Claims)
    → authenticate lib v require_access now header ≡ ok c
    → Admitted lib v require_access now header c
unfolding authenticate
authenticate-Admitted lib v require_access now header c h = elim (Bool-cases (str_eq header "")) [
  | inl e ↦ cc (rw e at h)
  | inr e ↦
      let (token, split, valid, access) =
        token_checked-ok lib v require_access now _ c (rw e at h) in
      let (scheme, parts, is_bearer) = bearer-ok _ token split in
      let (parsed, accepts) = (parse_and_validate_iff lib v now token c).0 valid in
      record {
        scheme = scheme;
        token = token;
        parts = parts;
        is_bearer = is_bearer;
        accepts = accepts;
        parsed = parsed;
        access = access;
      }
]

-- The identity that AuthFromLocals gives to the handler.
abbrev pub identity : Claims → AuthInfo
identity c = record {
  user_id = c.user_id;
  role = c.role;
  token_type = c.token_type;
  token_id = c.id;
}

-- A handler behind JWTAuth that replies has run with the identity of claims that the library
-- parsed, as valid, from the Bearer token of the header, and that the verifier accepts at that
-- instant; where an access token is required, they are those of an access token.
pub jwt_auth-Admitted :
    {A : Type 0} (lib : JwtLib) (v : Verifier) (require_access : Bool) (header : String)
    (next : Locals → M A) (w w' : World) (a : A)
    → jwt_auth lib v require_access header next w ≡ (ok a, w')
    → (c : Claims) × Admitted lib v require_access w.now header c
      × (auth_from_locals (locals_of c) ≡ some (identity c))
      × (next (locals_of c) w ≡ (ok a, w'))
unfolding jwt_auth auth_from_locals
jwt_auth-Admitted lib v require_access header next w w' a k =
    lift-elim _ _ _ k
      λ c valid k. (c, authenticate-Admitted lib v require_access w.now header c valid, refl, k)
