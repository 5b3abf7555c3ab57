-- ===== src/Life/Tables.antt =====
-- Updates of a table of which each row, or some row, has a property.
use mathlib.Core.Option
use esppdv.Base.{
  ◌≡◌, refl, Bool, true, false, List, [], ◌∷◌, ◌++◌, none, some, All, any, find?, update,
  Bool-cases, inl, inr, if◌then◌else◌,
}

module _ {A : Type 0} (P Q : A → Type 0) where
  pub All-map : (xs : List A) → ((x : A) → P x → Q x) → All P xs → All Q xs
  All-map [] f l = tt
  All-map (x ∷ xs) f (p, l) = (f x p, All-map xs f l)

  pub All-update :
      (q : A → Bool) (g : A → A) (xs : List A)
      → ((x : A) → P x → q x ≡ true → Q (g x))
      → ((x : A) → P x → q x ≡ false → Q x)
      → All P xs
      → All Q (update q g xs)
  All-update q g [] hit miss l = tt
  All-update q g (x ∷ xs) hit miss (p, l) = elim (Bool-cases (q x)) [
    | inl e ↦ (rw e (hit x p e), All-update q g xs hit miss l)
    | inr e ↦ (rw e (miss x p e), All-update q g xs hit miss l)
  ]

module _ {A : Type 0} (P : A → Type 0) where
  pub All-append : (xs : List A) (x : A) → All P xs → P x → All P (xs ++ x ∷ [])
  All-append [] x l p = (p, tt)
  All-append (y ∷ xs) x (q, l) p = (q, All-append xs x l p)

  pub All-find? : (t : A → Bool) (xs : List A) {x : A} → All P xs → find? t xs ≡ some x → P x
  All-find? t [] l h = cc
  All-find? t (y ∷ xs) {x} (p, l) h = elim (Bool-cases (t y)) [
    | inl e ↦ let same : y ≡ x = cc (rw e at h) in rw (← same) p
    | inr e ↦ All-find? t xs l (rw e at h)
  ]

module _ {A : Type 0} (p : A → Bool) where
  pub any-append : (xs ys : List A) → any p xs ≡ true → any p (xs ++ ys) ≡ true
  any-append [] ys h = cc
  any-append (x ∷ xs) ys h = elim (Bool-cases (p x)) [
    | inl e ↦ rw e refl
    | inr e ↦ rw e (any-append xs ys (rw e at h))
  ]

  pub any-last : (xs : List A) (x : A) → p x ≡ true → any p (xs ++ x ∷ []) ≡ true
  any-last [] x h = rw h refl
  any-last (y ∷ xs) x h = elim (Bool-cases (p y)) [
    | inl e ↦ rw e refl
    | inr e ↦ rw e (any-last xs x h)
  ]

  -- The first row that is updated has what the update gives.
  pub any-updated :
      (q : A → Bool) (g : A → A) (xs : List A) {x : A}
      → ((y : A) → q y ≡ true → p (g y) ≡ true)
      → find? q xs ≡ some x
      → any p (update q g xs) ≡ true
  any-updated q g [] hit h = cc
  any-updated q g (y ∷ xs) hit h = elim (Bool-cases (q y)) [
    | inl e ↦ rw (e, hit y e) refl
    | inr e ↦ elim (Bool-cases (p y)) [
      | inl k ↦ rw (e, k) refl
      | inr k ↦ rw (e, k) (any-updated q g xs hit (rw e at h))
    ]
  ]

  pub any-update :
      (q : A → Bool) (g : A → A) (xs : List A)
      → ((y : A) → q y ≡ true → p y ≡ true → p (g y) ≡ true)
      → any p xs ≡ true
      → any p (update q g xs) ≡ true
  any-update q g [] hit h = cc
  any-update q g (y ∷ xs) hit h = elim (Bool-cases (p y)) [
    | inl k ↦ elim (Bool-cases (q y)) [ inl e ↦ rw (e, hit y e k) refl | inr e ↦ rw (e, k) refl ]
    | inr k ↦ elim (Bool-cases (p (if q y then g y else y))) [
      | inl e ↦ rw e refl
      | inr e ↦ rw e (any-update q g xs hit (rw k at h))
    ]
  ]

  -- The row that is found after an update that leaves the test alone.
  pub find?-update_row :
      (q : A → Bool) (g : A → A) (xs : List A)
      → ((y : A) → p (g y) ≡ p y)
      → find? p (update q g xs) ≡ Option.map (λ y. if q y then g y else y) (find? p xs)
  find?-update_row q g [] same = refl
  find?-update_row q g (y ∷ xs) same = elim (Bool-cases (q y)) [
    | inl e ↦ elim (Bool-cases (p y)) [
      | inl k ↦ rw (e, same y, k, e) refl
      | inr k ↦ rw (e, same y, k) (find?-update_row q g xs same)
    ]
    | inr e ↦ elim (Bool-cases (p y)) [
      | inl k ↦ rw (e, k, e) refl
      | inr k ↦ rw (e, k) (find?-update_row q g xs same)
    ]
  ]

  pub find?-append_some :
      (xs ys : List A) {x : A} → find? p xs ≡ some x → find? p (xs ++ ys) ≡ some x
  find?-append_some [] ys h = cc
  find?-append_some (y ∷ xs) ys h = elim (Bool-cases (p y)) [
    | inl e ↦ rw e (rw e at h)
    | inr e ↦ rw e (find?-append_some xs ys (rw e at h))
  ]

  pub find?-append_none : (xs ys : List A) → find? p xs ≡ none → find? p (xs ++ ys) ≡ find? p ys
  find?-append_none [] ys h = refl
  find?-append_none (y ∷ xs) ys h = elim (Bool-cases (p y)) [
    | inl e ↦ cc (rw e at h)
    | inr e ↦ rw e (find?-append_none xs ys (rw e at h))
  ]
