-- ===== src/Etl/Repeat.antt =====
-- One step of the migration, run again over tables that hold what it has loaded.
use esppdv.Base.{◌≡◌, ap, ◌∙◌, Bool, true, false, String, Option, none, some, All, List, [], ◌∷◌}
use esppdv.Outcome.{Result, ok, err}
use esppdv.Exec.{for_each, ◌>>◌}
use esppdv.Exec.Rules.{bind-elim}
use esppdv.World.{World, Tables}
use esppdv.World.Sql.{M}
use esppdv.World.Quiet.{Quiet, Quiet-pure, Quiet-raise}
use esppdv.World.Inversion.{exec-ok, reached}
use esppdv.World.Tx.{with_tx-ok}
use esppdv.Etl.Csv.{File, Row, read_csv}
use esppdv.Etl.Load.{
  Key, Target, holds_key, inserted_valid, inserted, insert, load_row, load_rows, migrate,
}
use esppdv.Etl.Kept.{
  Kept, Kept-refl, Kept-trans, Grows, Grows-bind, Grows-of_Quiet, Grows-with_tx, Grows-insert,
  Lawful, inserted-Kept,
}
use esppdv.Etl.Settled.{
  Yields, Settles, Settles-bind, Settles-known, Settles-with_tx, Settles-exec, Settles-of_Quiet,
}

-- `m` loses no key; and once it has succeeded, it changes nothing over any later tables.
pub record Repeatable (m : M (Unit {0})) : Type 0 where
  pub grows : Grows m
  pub again : (w w' : World) → m w ≡ (ok tt, w') → (t : Tables) → Kept w'.tables t → Settles m t

Grows-step :
    {m : M (Unit {0})} (w w' : World) → Grows m → m w ≡ (ok tt, w') → Kept w.tables w'.tables
Grows-step w w' g h =
    let e : _ ≡ w' = ap (λ (p : Result (Unit {0}) × World). p.1) h in rw e at (g.at w)

pub Repeatable-then : (m n : M (Unit {0})) → Repeatable m → Repeatable n → Repeatable (m >> n)
Repeatable-then m n p q = record {
  grows = Grows-bind p.grows (λ _. q.grows);
  again = λ w w' h t k. bind-elim m _ w h λ _ v hm hn.
      Settles-bind
        (p.again w v hm t (Kept-trans v.tables w'.tables t (Grows-step v w' q.grows hn) k))
        (λ _. q.again v w' hn t k);
}

pub Repeatable-of_Quiet : {m : M (Unit {0})} → Quiet m → Repeatable m
Repeatable-of_Quiet q = record {
  grows = Grows-of_Quiet q;
  again = λ w w' h t k. Settles-of_Quiet q;
}

module _ {A : Type 0} (target : Target A) where
  -- The row, or its key, is there.
  abbrev Loaded : (Row → Result Key) → Tables → Row → Type 0
  Loaded row_key t row = (k : Key) → row_key row ≡ ok k → holds_key target k t ≡ true

  inserted_valid-settled :
      (a : A) (w : World) (o : Option String) {u : Tables}
      → holds_key target (target.key a) w.tables ≡ true
      → inserted_valid target a w o ≡ ok (tt, u)
      → u ≡ w.tables
  inserted_valid-settled a w (some e) here h = cc
  inserted_valid-settled a w none here h = cc (rw here at h)

  -- An INSERT of a row whose key is there.
  inserted-settled :
      (a : A) (w : World) {u : Tables}
      → holds_key target (target.key a) w.tables ≡ true
      → inserted target a w ≡ ok (tt, u)
      → u ≡ w.tables
  inserted-settled a w e h = inserted_valid-settled a w (target.invalid a w) e h

  insert-settled :
      (a : A) (t : Tables) → holds_key target (target.key a) t ≡ true → Settles (insert target a) t
  unfolding insert
  insert-settled a t h = Settles-exec _ λ w _ u e k. inserted-settled a w (rw e h) k ∙ e

  module _ (decode : Row → M A) (row_key : Row → Result Key) where
    -- A decoder that writes nothing, gives each row the key that the row itself shows, and shows
    -- it for each row that it accepts.
    pub record Decoder : Type 0 where
      pub quiet : (row : Row) → Quiet (decode row)
      pub keyed : (row : Row) → Yields (λ a. row_key row ≡ ok (target.key a)) (decode row)

    module _ (lawful : Lawful target) (decoder : Decoder) where
      Grows-load_row : (row : Row) → Grows (load_row target decode row)
      Grows-load_row row =
          Grows-bind (Grows-of_Quiet (decoder.quiet row)) (λ a. Grows-insert target a lawful)

      Grows-load_rows : (rows : List Row) → Grows (for_each rows (load_row target decode))
      unfolding for_each
      Grows-load_rows [] = Grows-of_Quiet (Quiet-pure tt)
      Grows-load_rows (row ∷ rows) = Grows-bind (Grows-load_row row) (λ _. Grows-load_rows rows)

      insert-loaded :
          (a : A) (w w' : World)
          → insert target a w ≡ (ok tt, w')
          → holds_key target (target.key a) w'.tables ≡ true
      unfolding insert
      insert-loaded a w w' h = (inserted-Kept target a (reached w) lawful (exec-ok _ w h).0).1

      load_row-Loaded :
          (row : Row) (w w' : World)
          → load_row target decode row w ≡ (ok tt, w')
          → Loaded row_key w'.tables row
      load_row-Loaded row w w' h k e = bind-elim _ _ w h λ a v hd hi.
          let same : target.key a ≡ k = cc ((decoder.keyed row).at w a v hd, e) in
          rw (← same) (insert-loaded a v w' hi)

      load_rows-Loaded :
          (rows : List Row) (w w' : World) (t : Tables)
          → for_each rows (load_row target decode) w ≡ (ok tt, w')
          → Kept w'.tables t
          → All (Loaded row_key t) rows
      unfolding for_each
      load_rows-Loaded [] w w' t h k = tt
      load_rows-Loaded (row ∷ rows) w w' t h k =
          bind-elim (load_row target decode row) (λ _. for_each rows (load_row target decode)) w h
            λ _ v h1 h2. (
              λ key e.
                  (lawful.holds v.tables t (
                      Kept-trans v.tables w'.tables t (Grows-step v w' (Grows-load_rows rows) h2)
                        k))
                    key (load_row-Loaded row w v h1 key e),
              load_rows-Loaded rows v w' t h2 k,
            )

      load_row-settled :
          (row : Row) (t : Tables) → Loaded row_key t row → Settles (load_row target decode row) t
      load_row-settled row t l =
          Settles-known (Settles-of_Quiet (decoder.quiet row)) (decoder.keyed row)
            (λ a e. insert-settled a t (l (target.key a) e))

      load_rows-settled :
          (rows : List Row) (t : Tables)
          → All (Loaded row_key t) rows
          → Settles (for_each rows (load_row target decode)) t
      unfolding for_each
      load_rows-settled [] t l = Settles-of_Quiet (Quiet-pure tt)
      load_rows-settled (row ∷ rows) t (l, ls) =
          Settles-bind (load_row-settled row t l) (λ _. load_rows-settled rows t ls)

      Repeatable-load_rows :
          (dry : Bool) (r : Result (List Row)) → Repeatable (load_rows target decode dry r)
      Repeatable-load_rows dry (err e) = Repeatable-of_Quiet (Quiet-raise e)
      Repeatable-load_rows dry (ok []) = Repeatable-of_Quiet (Quiet-pure tt)
      Repeatable-load_rows true (ok (row ∷ rows)) = Repeatable-of_Quiet (Quiet-pure tt)
      Repeatable-load_rows false (ok (row ∷ rows)) = record {
        grows = Grows-with_tx (Grows-load_rows (row ∷ rows));
        again = λ w w' h t k.
            let (v, ran, done) = with_tx-ok _ w h in
            Settles-with_tx (
              load_rows-settled (row ∷ rows) t (
                load_rows-Loaded (row ∷ rows) (reached w) v t ran
                  (Kept-trans v.tables w'.tables t (Kept-refl v.tables w'.tables done.tables) k)));
      }

      pub Repeatable-migrate :
          (file : File) (dry : Bool) → Repeatable (migrate target decode file dry)
      unfolding migrate
      Repeatable-migrate file dry = Repeatable-load_rows dry (read_csv file)
