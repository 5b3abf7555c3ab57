-- ===== src/Sample/Cipher.antt =====
-- A cipher that writes down the codes of the plaintext. It keeps the
-- laws that the model asks of an AEAD, and no secret.
use Prim.Native.Char.{Char, char, code, IsLt}
use Prim.Native.Nat.{Ordering, compare}
use esppdv.Base.{ℕ, String, [], ◌∷◌, Option, none, some, ◌≡◌, refl, ap}
use esppdv.Text.{Bytes}
use esppdv.Crypto.{Aead}

abbrev BothLt : Ordering → Ordering → Type 0
BothLt Ordering.lt o = IsLt o
BothLt Ordering.eq _ = ⊥
BothLt Ordering.gt _ = ⊥

abbrev LtOrBothLt : Ordering → Ordering → Ordering → Type 0
LtOrBothLt Ordering.lt _ _ = Unit
LtOrBothLt Ordering.eq o p = BothLt o p
LtOrBothLt Ordering.gt o p = BothLt o p

abbrev is_lt : (o : Ordering) → Option (IsLt o)
is_lt Ordering.lt = some tt
is_lt Ordering.eq = none
is_lt Ordering.gt = none

abbrev are_lt : (o p : Ordering) → Option (BothLt o p)
are_lt Ordering.lt p = is_lt p
are_lt Ordering.eq _ = none
are_lt Ordering.gt _ = none

abbrev scalar : (a o p : Ordering) → Option (LtOrBothLt a o p)
scalar Ordering.lt _ _ = some tt
scalar Ordering.eq o p = are_lt o p
scalar Ordering.gt o p = are_lt o p

is_lt-all : (o : Ordering) (x : IsLt o) → is_lt o ≡ some x
is_lt-all Ordering.lt x = refl
is_lt-all Ordering.eq x = absurd x
is_lt-all Ordering.gt x = absurd x

are_lt-all : (o p : Ordering) (x : BothLt o p) → are_lt o p ≡ some x
are_lt-all Ordering.lt p x = is_lt-all p x
are_lt-all Ordering.eq p x = absurd x
are_lt-all Ordering.gt p x = absurd x

scalar-all : (a o p : Ordering) (x : LtOrBothLt a o p) → scalar a o p ≡ some x
scalar-all Ordering.lt o p x = refl
scalar-all Ordering.eq o p x = are_lt-all o p x
scalar-all Ordering.gt o p x = are_lt-all o p x

abbrev char_of :
    (n : ℕ)
    → Option (LtOrBothLt (compare n 55296) (compare 57343 n) (compare n 1114112))
    → Option Char
char_of n none = none
char_of n (some x) = some (char n x)

abbrev decode : ℕ → Option Char
decode n = char_of n (scalar (compare n 55296) (compare 57343 n) (compare n 1114112))

decode-code : (c : Char) → decode (code c) ≡ some c
decode-code (char n x) = ap (λ o. char_of n o) (scalar-all _ _ _ x)

abbrev codes : String → Bytes
codes String.[] = []
codes (String.◌∷◌ c s) = code c ∷ codes s

abbrev cons : Option Char → Option String → Option String
cons (some c) (some s) = some (String.◌∷◌ c s)
cons _ _ = none

abbrev decoded : Bytes → Option String
decoded [] = some String.[]
decoded (n ∷ ns) = cons (decode n) (decoded ns)

pub decoded-codes : (s : String) → decoded (codes s) ≡ some s
decoded-codes String.[] = refl
decoded-codes (String.◌∷◌ c s) = rw (decode-code c, decoded-codes s) refl

code-char_of :
    (n : ℕ) (o : Option (LtOrBothLt (compare n 55296) (compare 57343 n) (compare n 1114112)))
    (c : Char)
    → char_of n o ≡ some c
    → n ≡ code c
code-char_of n none c h = cc
code-char_of n (some x) c h = let e : char n x ≡ c = cc h in ap code e

cons-some :
    (o : Option Char) (t : Option String) (s : String)
    → cons o t ≡ some s
    → (c : Char) × (r : String) × (o ≡ some c) × (t ≡ some r) × (String.◌∷◌ c r ≡ s)
cons-some none t s h = cc
cons-some (some c) none s h = cc
cons-some (some c) (some r) s h = (c, r, refl, refl, cc h)

pub codes-decoded : (b : Bytes) (s : String) → decoded b ≡ some s → b ≡ codes s
codes-decoded [] s h = let e : String.[] ≡ s = cc h in ap codes e
codes-decoded (n ∷ ns) s h =
    let (c, r, e, k, same) = cons-some (decode n) (decoded ns) s h in
    let first = code-char_of n _ c e in
    let rest = codes-decoded ns r k in rw (first, rest) (ap codes same)

-- A nonce of one byte, and a ciphertext that is the codes of the plaintext.
abbrev pub toy_gcm : Aead
toy_gcm = record {
  nonce_size = 1;
  seal = λ n p aad. codes p;
  unseal = λ n c aad. decoded c;
  unseal-seal = λ n p aad. decoded-codes p;
  seal-unseal = λ n c p aad h. codes-decoded c p h;
}
