-- ===== src/Store/Keeps.antt =====
-- `Keeps P m`: what `P` says of the tables survives `m`, wherever a statement of `m` fails.
-- One rule for each way to build an operation.
use lagoon_email.Prelude.{
  ◌≡◌, refl, subst, All, Bool, true, false, List, [], ◌∷◌, Result, ok, err, if◌then◌else◌,
}
use lagoon_email.Store.Table.{
  Db, Store, WriteError, Exec, pure, raise, lift, continue, ◌>>=◌, attempt, statement, execute,
  query, for_each, ignore,
}

pub record Keeps {A : Type 0} (P : Db → Type 0) (m : Exec A) : Type 0 where
  pub at : (s : Store) → P s.db → P (m s).1.db

attempt-db :
    {A : Type 0} (P : Db → Type 0) (faults : List Bool) (db : Db) (f : Db → A × Db)
    → P db
    → P (f db).1
    → P (attempt faults db f).1.db
unfolding attempt
attempt-db P [] db f before after = after
attempt-db P (true ∷ rest) db f before after = before
attempt-db P (false ∷ rest) db f before after = after

continue-db :
    {A B : Type 0} (P : Db → Type 0) (r : Result WriteError A) (f : A → Exec B) (s : Store)
    → ((a : A) → Keeps P (f a))
    → P s.db
    → P (continue r f s).1.db
unfolding continue
continue-db P (ok a) f s kf h = (kf a).at s h
continue-db P (err e) f s kf h = h

module _ {P : Db → Type 0} {A : Type 0} where
  pub Keeps-pure : (a : A) → Keeps P (pure a)
  Keeps-pure a = record { at = λ s h. h }

  pub Keeps-statement : (f : Db → A × Db) → ((db : Db) → P db → P (f db).1) → Keeps P (statement f)
  unfolding statement
  Keeps-statement f keep = record { at = λ s h. attempt-db P s.faults s.db f h (keep s.db h) }

  pub Keeps-query : (f : Db → A) → Keeps P (query f)
  unfolding query
  Keeps-query f = Keeps-statement (λ db. (f db, db)) (λ db h. h)

  pub Keeps-ignore : (m : Exec A) → Keeps P m → Keeps P (ignore m)
  unfolding ignore
  Keeps-ignore m keep = record { at = λ s h. keep.at s h }

  -- Each branch has to keep `P` only where it is the one that runs.
  pub Keeps-if :
      (test : Bool) (left right : Exec A)
      → (test ≡ true → Keeps P left)
      → (test ≡ false → Keeps P right)
      → Keeps P (if test then left else right)
  Keeps-if true left right taken other = taken refl
  Keeps-if false left right taken other = other refl

module _ {P : Db → Type 0} where
  pub Keeps-execute : (f : Db → Db) → ((db : Db) → P db → P (f db)) → Keeps P (execute f)
  unfolding execute
  Keeps-execute f keep = Keeps-statement (λ db. (tt, f db)) keep

module _ {P : Db → Type 0} {A B : Type 0} where
  pub Keeps-bind :
      (first : Exec A) (next : A → Exec B)
      → Keeps P first
      → ((a : A) → Keeps P (next a))
      → Keeps P (first >>= next)
  unfolding ◌>>=◌
  Keeps-bind first next before after = record {
    at = λ s h. continue-db P (first s).0 next (first s).1 after (before.at s h);
  }

module _ {P : Db → Type 0} {A : Type 0} where
  -- An operation that does not touch the store.
  pub Keeps-lift : (r : Result WriteError A) → Keeps P (lift r)
  Keeps-lift r = record { at = λ s h. h }

  pub Keeps-raise : (e : WriteError) → Keeps P (raise {A = A} e)
  Keeps-raise e = Keeps-lift (err e)

module _ {P : Db → Type 0} {A : Type 0} where
  pub Keeps-for_each :
      (xs : List A) (body : A → Exec (Unit {0}))
      → ((x : A) → Keeps P (body x))
      → Keeps P (for_each xs body)
  unfolding for_each
  Keeps-for_each [] body kb = Keeps-pure tt
  Keeps-for_each (x ∷ xs) body kb =
      Keeps-bind (body x) (λ _. for_each xs body) (kb x) (λ _. Keeps-for_each xs body kb)

-- `m` keeps `P`, and what it returns satisfies `V`.
pub record Yields {A : Type 0} (P : Db → Type 0) (V : A → Type 0) (m : Exec A) : Type 0 where
  pub keeps : Keeps P m
  pub value : (s : Store) → P s.db → (v : A) → (m s).0 ≡ ok v → V v

attempt-value :
    {A : Type 0} (faults : List Bool) (db : Db) (f : Db → A × Db) (v : A)
    → (attempt faults db f).0 ≡ ok v
    → v ≡ (f db).0
unfolding attempt
attempt-value [] db f v h = cc
attempt-value (true ∷ rest) db f v h = cc
attempt-value (false ∷ rest) db f v h = cc

ok_injective : {A : Type 0} (a v : A) → ◌≡◌ {A = Result WriteError A} (ok a) (ok v) → a ≡ v
ok_injective a v e = cc

query-value : {A : Type 0} (f : Db → A) (s : Store) (v : A) → (query f s).0 ≡ ok v → v ≡ f s.db
unfolding query
query-value f s v e = attempt-value s.faults s.db (λ db. (f db, db)) v e

module _ {P : Db → Type 0} {A : Type 0} (V : A → Type 0) where
  pub Yields-query : (f : Db → A) → ((db : Db) → P db → V (f db)) → Yields P V (query f)
  Yields-query f post = record {
    keeps = Keeps-query f;
    value = λ s h v e. rw (query-value f s v e) (post s.db h);
  }

  pub Yields-pure : (a : A) → V a → Yields P V (pure a)
  Yields-pure a post = record {
    keeps = Keeps-pure a;
    value = λ s h v e. subst V (ok_injective a v e) post;
  }

continue-Yields :
    {A B : Type 0} (P : Db → Type 0) (r : Result WriteError A) (f : A → Exec B) (s : Store)
    → ((v : A) → r ≡ ok v → Keeps P (f v))
    → P s.db
    → P (continue r f s).1.db
unfolding continue
continue-Yields P (ok a) f s kf h = (kf a refl).at s h
continue-Yields P (err e) f s kf h = h

module _ {P : Db → Type 0} {A B : Type 0} {V : A → Type 0} where
  -- The rest of the block may use what the first part returns.
  pub Keeps-bind-Yields :
      (m : Exec A) (f : A → Exec B)
      → Yields P V m
      → ((v : A) → V v → Keeps P (f v))
      → Keeps P (m >>= f)
  unfolding ◌>>=◌
  Keeps-bind-Yields m f ym kf = record {
    at = λ s h.
        continue-Yields P (m s).0 f (m s).1 (λ v e. kf v (ym.value s h v e)) (ym.keeps.at s h);
  }

module _ {A B : Type 0} (V : B → Type 0) where
  continue-pure :
      (r : Result WriteError A) (g : A → B) (s : Store) (v : B)
      → (continue r (λ x. pure (g x)) s).0 ≡ ok v
      → ((x : A) → V (g x))
      → V v
  unfolding continue
  continue-pure (ok x) g s v e post = subst V (ok_injective (g x) v e) (post x)
  continue-pure (err c) g s v e post = cc

module _ {P : Db → Type 0} {A B : Type 0} (V : B → Type 0) where
  -- A query whose result goes through a function.
  pub Yields-map :
      (f : Db → A) (g : A → B) → ((x : A) → V (g x)) → Yields P V (query f >>= λ x. pure (g x))
  unfolding ◌>>=◌
  Yields-map f g post = record {
    keeps = Keeps-bind _ _ (Keeps-query f) (λ x. Keeps-pure (g x));
    value = λ s h v e. continue-pure V (query f s).0 g (query f s).1 v e post;
  }

module _ {P : Db → Type 0} {A : Type 0} (Q : A → Type 0) where
  pub Keeps-for_each-All :
      (xs : List A) (body : A → Exec (Unit {0}))
      → All Q xs
      → ((x : A) → Q x → Keeps P (body x))
      → Keeps P (for_each xs body)
  unfolding for_each
  Keeps-for_each-All [] body all kb = Keeps-pure tt
  Keeps-for_each-All (x ∷ xs) body (qx, qxs) kb =
      Keeps-bind (body x) (λ _. for_each xs body) (kb x qx) (λ _. Keeps-for_each-All xs body qxs kb)

pub ruleset keeps_rules = (
  Keeps-query, Keeps-for_each, Keeps-bind, Keeps-if, Keeps-ignore, Keeps-pure, Keeps-lift,
  Keeps-raise,
)
