-- ===== src/Etl/Bumps.antt =====
-- bumpSequences of tools/etl/main.go: what each setval leaves.
use esppdv.Base.{
  ◌≡◌, refl, ap, sym, ◌∙◌, ℤ, pos, pos_part, ltb_ℤ, leb_ℤ, ◌≤ℤ◌, String, true, false, List, [], ◌∷◌,
  All, Bool-cases, inl, inr, if◌then◌else◌, str_eq, arith, eq_refl, subst,
}
use esppdv.Outcome.{Result, ok}
use esppdv.Exec.{for_each}
use esppdv.Exec.Rules.{bind-elim}
use esppdv.World.{World}
use esppdv.World.Inversion.{reached, reach-ok}
use esppdv.Etl.Run.{max_from, max_id, bumped, setval, shown_ids, bumps, bump, bump_sequences}
use esppdv.Etl.Money.{budgets, spds}
use esppdv.World.Policies.{spds_select, budgets_select}

-- The sequence of a table has passed every id of it.
abbrev pub Covers : World → String × (World → List ℤ) → Type 0
Covers w (table, ids) = All (λ i. i ≤ℤ pos (w.serial table)) (ids w)

-- What a SELECT outside of a transaction depends on.
record Alike (w t : World) : Type 0 where
  tables : t.tables ≡ w.tables
  rls : t.rls ≡ w.rls
  setting : t.setting ≡ w.setting

Alike-trans : (u v w : World) → Alike u v → Alike v w → Alike u w
Alike-trans u v w p q = record {
  tables = q.tables ∙ p.tables;
  rls = q.rls ∙ p.rls;
  setting = q.setting ∙ p.setting;
}

abbrev Steady : (World → List ℤ) → Type 0
Steady ids = (w t : World) → Alike w t → ids t ≡ ids w

≤ℤ_trans : (a b c : ℤ) → a ≤ℤ b → b ≤ℤ c → a ≤ℤ c
≤ℤ_trans a b c p q = ground arith

max_from-ge : (m : ℤ) (is : List ℤ) → m ≤ℤ max_from m is
max_from-ge m [] = omega arith
max_from-ge m (i ∷ is) = elim (Bool-cases (ltb_ℤ m i)) [
  | inl e ↦ rw e (≤ℤ_trans m i (max_from i is) (ground arith) (max_from-ge i is))
  | inr e ↦ rw e (max_from-ge m is)
]

max_from-All : (m : ℤ) (is : List ℤ) → All (λ i. i ≤ℤ max_from m is) is
max_from-All m [] = tt
max_from-All m (i ∷ is) = elim (Bool-cases (ltb_ℤ m i)) [
  | inl e ↦
      let up : max_from i is ≡ max_from m (i ∷ is) =
        ap (λ b. max_from (if b then i else m) is) (sym e) in
      subst (λ n. All (λ j. j ≤ℤ n) (i ∷ is)) up (max_from-ge i is, max_from-All i is)
  | inr e ↦
      let same : max_from m is ≡ max_from m (i ∷ is) =
        ap (λ b. max_from (if b then i else m) is) (sym e) in
      subst (λ n. All (λ j. j ≤ℤ n) (i ∷ is)) same
        (≤ℤ_trans i m (max_from m is) (ground arith) (max_from-ge m is), max_from-All m is)
]

max_id-All : (is : List ℤ) → All (λ i. i ≤ℤ max_id is) is
max_id-All [] = tt
max_id-All (i ∷ is) = (max_from-ge i is, max_from-All i is)

All-below : (a b : ℤ) (is : List ℤ) → a ≤ℤ b → All (λ i. i ≤ℤ a) is → All (λ i. i ≤ℤ b) is
All-below a b [] h l = tt
All-below a b (i ∷ is) h (p, l) = (≤ℤ_trans i a b p h, All-below a b is h l)

-- What setval leaves: the sequence at the greatest id, and the others where they were.
record Bumped (table : String) (m : ℤ) (w t : World) : Type 0 where
  alike : Alike w t
  covers : m ≤ℤ pos (t.serial table)
  others : (name : String) → str_eq name table ≡ false → t.serial name ≡ w.serial name

str_eq_same : (s : String) → str_eq s s ≡ true
str_eq_same s = eq_refl s

bumped-ok :
    (table : String) (m : ℤ) (w : World) {t : World}
    → bumped table m w ≡ (ok tt, t)
    → Bumped table m w t
bumped-ok table m w {t} h = elim (Bool-cases (leb_ℤ (pos 1) m)) [
  | inl e ↦
      let same : record w { serial = λ n. if str_eq n table then pos_part m else w.serial n } ≡ t =
        ap (λ (p : Result (Unit {0}) × World). p.1) (rw e at h) in
      rw (← same) (record {
        alike = record { tables = refl; rls = refl; setting = refl };
        covers = rw (str_eq_same table) (ground arith);
        others = λ name ne. rw ne refl;
      })
  | inr e ↦ cc (rw e at h)
]

setval-Bumped :
    (table : String) (ids : World → List ℤ) (w : World) {t : World}
    → Steady ids
    → setval table ids w ≡ (ok tt, t)
    → Bumped table (max_id (ids w)) w t
setval-Bumped table ids w {t} steady h = bind-elim _ _ w h λ _ v hr hb.
    let e : reached w ≡ v = reach-ok w hr in
    let same : Alike w v = rw (← e) (record { tables = refl; rls = refl; setting = refl }) in
    let b = bumped-ok table (max_id (ids v)) v hb in
    record {
      alike = Alike-trans w v t same b.alike;
      covers = rw (steady w v same) at b.covers;
      others = λ name ne. b.others name ne ∙ ap (λ (u : World). u.serial name) (sym e);
    }

abbrev pub Bump : Type 0
Bump = String × (World → List ℤ)

abbrev Differs : String → Bump → Type 0
Differs name (table, ids) = str_eq name table ≡ false

abbrev Distinct : List Bump → Type 0
Distinct [] = Unit
Distinct ((table, ids) ∷ bs) = (All (Differs table) bs × Steady ids) × Distinct bs

bumps-Alike :
    (bs : List Bump) (w : World) {t : World}
    → Distinct bs
    → for_each bs bump w ≡ (ok tt, t)
    → Alike w t
unfolding for_each
bumps-Alike [] w d h =
    let e : w ≡ _ = ap (λ (p : Result (Unit {0}) × World). p.1) h in
    rw (← e) (record { tables = refl; rls = refl; setting = refl })
bumps-Alike ((table, ids) ∷ bs) w {t} ((_, s), ds) h =
    bind-elim (bump (table, ids)) (λ _. for_each bs bump) w h
      λ _ v h1 h2. Alike-trans w v t (setval-Bumped table ids w s h1).alike (bumps-Alike bs v ds h2)

serial-kept :
    (name : String) (bs : List Bump) (w : World) {t : World}
    → All (Differs name) bs
    → Distinct bs
    → for_each bs bump w ≡ (ok tt, t)
    → t.serial name ≡ w.serial name
unfolding for_each
serial-kept name [] w d k h = ap (λ (p : Result (Unit {0}) × World). p.1.serial name) (sym h)
serial-kept name ((table, ids) ∷ bs) w (d, ds) ((_, s), ks) h =
    bind-elim (bump (table, ids)) (λ _. for_each bs bump) w h
      λ _ v h1 h2. serial-kept name bs v ds ks h2 ∙ (setval-Bumped table ids w s h1).others name d

setval-Covers :
    (table : String) (ids : World → List ℤ) (w v t : World)
    → Steady ids
    → Bumped table (max_id (ids w)) w v
    → Alike v t
    → t.serial table ≡ v.serial table
    → Covers t (table, ids)
setval-Covers table ids w v t steady b a s =
    subst (λ (k : List ℤ). All (λ i. i ≤ℤ pos (t.serial table)) k)
      (sym (steady w t (Alike-trans w v t b.alike a)))
      (All-below (max_id (ids w)) (pos (t.serial table)) (ids w) (rw s b.covers)
        (max_id-All (ids w)))

bumps-Covers :
    (bs : List Bump) (w : World) {t : World}
    → Distinct bs
    → for_each bs bump w ≡ (ok tt, t)
    → All (Covers t) bs
unfolding for_each
bumps-Covers [] w d h = tt
bumps-Covers ((table, ids) ∷ bs) w {t} ((d, s), ds) h =
    bind-elim (bump (table, ids)) (λ _. for_each bs bump) w h
      λ _ v h1 h2. (
        setval-Covers table ids w v t s (setval-Bumped table ids w s h1) (bumps-Alike bs v ds h2)
            (serial-kept table bs v d ds h2),
        bumps-Covers bs v ds h2,
      )

budgets-Steady : Steady (shown_ids budgets budgets_select)
budgets-Steady = λ w t a. rw (a.rls, a.setting, a.tables) refl

spds-Steady : Steady (shown_ids spds spds_select)
spds-Steady = λ w t a. rw (a.rls, a.setting, a.tables) refl

bumps-Distinct : Distinct bumps
bumps-Distinct = (
  (search, λ w t a. rw a.tables refl),
  (
    (search, λ w t a. rw a.tables refl),
    (
      (search, λ w t a. rw a.tables refl),
      (
        (search, budgets-Steady),
        (
          (search, spds-Steady),
          (
            (search, λ w t a. rw a.tables refl),
            ((search, λ w t a. rw a.tables refl), ((search, λ w t a. rw a.tables refl), tt)),
          ),
        ),
      ),
    ),
  ),
)

pub bump_sequences-Covers :
    (w : World) {t : World} → bump_sequences w ≡ (ok tt, t) → All (Covers t) bumps
unfolding bump_sequences
bump_sequences-Covers w h = bumps-Covers bumps w bumps-Distinct h
