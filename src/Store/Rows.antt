-- ===== src/Store/Rows.antt =====
-- Filtering, updating and appending rows: what stays of a table, and which rows are found.
use lagoon_email.Prelude.{
  ◌≡◌, refl, Bool, true, false, none, some, List, [], ◌∷◌, ◌++◌, arith, if◌then◌else◌, any, find,
  filter,
}
use lagoon_email.Store.Table.{update_where}

module _ {A : Type 0} (q : A → Bool) where
  -- A row that `q` accepts survives a deletion that spares such rows.
  pub any-filter :
      (p : A → Bool) (xs : List A)
      → ((x : A) → q x ≡ true → p x ≡ true)
      → any q xs ≡ true
      → any q (filter p xs) ≡ true
  unfolding any filter
  any-filter p [] spare h = h
  any-filter p (x ∷ xs) spare h = ground (arith, spare x, any-filter p xs spare)

  -- It survives an update that leaves such rows acceptable.
  pub any-update_where :
      (p : A → Bool) (f : A → A) (xs : List A)
      → ((x : A) → q x ≡ true → q (f x) ≡ true)
      → any q xs ≡ true
      → any q (update_where p f xs) ≡ true
  unfolding any update_where
  any-update_where p f [] stable h = h
  any-update_where p f (x ∷ xs) stable h = ground (arith, stable x, any-update_where p f xs stable)

  pub any-append : (xs ys : List A) → any q xs ≡ true → any q (xs ++ ys) ≡ true
  unfolding any
  any-append [] ys h = cc
  any-append (x ∷ xs) ys h = ground (arith, any-append xs ys)

  pub any_last : (xs : List A) (y : A) → q y ≡ true → any q (xs ++ y ∷ []) ≡ true
  unfolding any
  any_last [] y h = ground arith
  any_last (x ∷ xs) y h = ground (arith, any_last xs y h)

module _ {A : Type 0} (q : A → Bool) where
  -- The rows that `q` accepts are untouched by a deletion of other rows.
  pub filter-filter :
      (p : A → Bool) (xs : List A)
      → ((x : A) → q x ≡ true → p x ≡ true)
      → filter q (filter p xs) ≡ filter q xs
  unfolding filter
  filter-filter p [] spare = refl
  filter-filter p (x ∷ xs) spare = ground (arith, spare x, filter-filter p xs spare)

  -- They are untouched by an update of other rows.
  pub filter-update_where :
      (p : A → Bool) (f : A → A) (xs : List A)
      → ((x : A) → p x ≡ true → q x ≡ false)
      → ((x : A) → p x ≡ true → q (f x) ≡ false)
      → filter q (update_where p f xs) ≡ filter q xs
  unfolding filter update_where
  filter-update_where p f [] before after = refl
  filter-update_where p f (x ∷ xs) before after =
      ground (arith, before x, after x, filter-update_where p f xs before after)

  pub filter_last : (xs : List A) (y : A) → q y ≡ false → filter q (xs ++ y ∷ []) ≡ filter q xs
  unfolding filter
  filter_last [] y h = ground arith
  filter_last (x ∷ xs) y h = ground (arith, filter_last xs y h)

  pub find_last :
      (xs : List A) (y : A)
      → find q (xs ++ y ∷ [])
        ≡ elim (find q xs) [ none ↦ if q y then some y else none | some x ↦ some x ]
  unfolding find
  find_last [] y = ground arith
  find_last (x ∷ xs) y = ground (arith, find_last xs y)

  -- An update that does not change what `q` says of a row is made in the row that is found.
  pub find-update_where :
      (p : A → Bool) (f : A → A) (xs : List A)
      → ((x : A) → q (f x) ≡ q x)
      → find q (update_where p f xs)
        ≡ elim (find q xs) [ none ↦ none | some x ↦ some (if p x then f x else x) ]
  unfolding find update_where
  find-update_where p f [] same = refl
  find-update_where p f (x ∷ xs) same = ground (arith, same x, find-update_where p f xs same)
