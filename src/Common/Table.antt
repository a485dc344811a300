-- ===== src/Common/Table.antt =====
-- A database table as the list of its rows, and the statements that the stores run on it: an UPDATE,
-- a DELETE and a SELECT with a WHERE clause, with the number of rows that the clause meets.
use Prim.Native.Nat.{ℕ, suc, ◌+◌, ◌≤◌}
use mathlib.Core.Path.{◌≡◌, refl}
use mathlib.Core.Bool.{Bool, true, false, ◌&&◌}
use mathlib.Core.Option.{Option, none, some}
use mathlib.Core.List.{List, [], ◌∷◌, ◌++◌, map}
use native.Mathlib.Omega.{arith}
use errander_ai.Common.Lists.{any, All}
use errander_ai.Common.Tests.{if◌then◌else◌, leb, if_holds}

module _ {ℓ} {Row : Type ℓ} where
  -- SELECT ... WHERE test
  unfoldable pub select_where : (Row → Bool) → List Row → List Row
  select_where test [] = []
  select_where test (r ∷ rows) =
      let rest = select_where test rows in if test r then r ∷ rest else rest

  -- The first row that the clause meets, as `fetchone` returns it.
  unfoldable pub find_where : (Row → Bool) → List Row → Option Row
  find_where test [] = none
  find_where test (r ∷ rows) = let rest = find_where test rows in if test r then some r else rest

  -- SELECT COUNT(*) ... WHERE test; `rowcount` of an UPDATE.
  unfoldable pub count_where : (Row → Bool) → List Row → ℕ
  count_where test [] = 0
  count_where test (r ∷ rows) =
      let rest = count_where test rows in if test r then suc rest else rest

  -- UPDATE ... SET change WHERE test
  unfoldable pub update_where : (Row → Bool) → (Row → Row) → List Row → List Row
  update_where test change = map (λ r. if test r then change r else r)

  -- DELETE ... WHERE test
  unfoldable pub delete_where : (Row → Bool) → List Row → List Row
  delete_where test [] = []
  delete_where test (r ∷ rows) =
      let rest = delete_where test rows in if test r then rest else r ∷ rest

  -- ORDER BY key ASC: the rows of equal keys stay in the order of the table.
  unfoldable pub insert_by : (Row → ℕ) → Row → List Row → List Row
  insert_by key r [] = r ∷ []
  insert_by key r (q ∷ rows) =
      let rest = insert_by key r rows in if leb (key r) (key q) then r ∷ q ∷ rows else q ∷ rest

  unfoldable pub order_by : (Row → ℕ) → List Row → List Row
  unfolding insert_by
  order_by key [] = []
  order_by key (r ∷ rows) = insert_by key r (order_by key rows)

  -- What an UPDATE does to the row that a lookup finds.
  abbrev pub changed : (Row → Bool) → (Row → Row) → Row → Row
  changed test change r = if test r then change r else r

  abbrev pub changed? : (Row → Bool) → (Row → Row) → Option Row → Option Row
  changed? test change none = none
  changed? test change (some r) = some (changed test change r)

  -- Whether the row that a lookup finds meets a clause.
  abbrev pub meets : (Row → Bool) → Option Row → Bool
  meets test none = false
  meets test (some r) = test r

  module _ (key test : Row → Bool) (change : Row → Row) where
    -- An UPDATE that leaves a key alone changes the row of that key and loses none.
    pub find_where-update_where :
        (rows : List Row)
        → ((r : Row) → key (change r) ≡ key r)
        → find_where key (update_where test change rows)
          ≡ changed? test change (find_where key rows)
    unfolding find_where update_where
    find_where-update_where [] keeps = refl
    find_where-update_where (r ∷ rows) keeps =
        ground (arith, keeps r, find_where-update_where rows keeps)

    pub count_where-update_where :
        (rows : List Row)
        → ((r : Row) → key (change r) ≡ key r)
        → count_where key (update_where test change rows) ≡ count_where key rows
    unfolding count_where update_where
    count_where-update_where [] keeps = refl
    count_where-update_where (r ∷ rows) keeps =
        ground (arith, keeps r, count_where-update_where rows keeps)

    pub at_most_one-update_where :
        (rows : List Row)
        → ((r : Row) → key (change r) ≡ key r)
        → count_where key rows ≤ 1
        → count_where key (update_where test change rows) ≤ 1
    at_most_one-update_where rows keeps one = rw (count_where-update_where rows keeps) one

    -- An UPDATE that makes no row meet `key` anew.
    pub count_where-update_where_le :
        (rows : List Row)
        → ((r : Row) → test r ≡ true → key (change r) ≡ true → key r ≡ true)
        → count_where key (update_where test change rows) ≤ count_where key rows
    unfolding count_where update_where
    count_where-update_where_le [] only = omega arith
    count_where-update_where_le (r ∷ rows) only =
        ground (arith, only r, count_where-update_where_le rows only)

  pub count_where-append :
      (key : Row → Bool) (rows more : List Row)
      → count_where key (rows ++ more) ≡ count_where key rows + count_where key more
  unfolding count_where
  count_where-append key [] more = omega arith
  count_where-append key (r ∷ rows) more = ground (arith, count_where-append key rows more)

  pub find_where-append :
      (key : Row → Bool) (rows more : List Row)
      → find_where key (rows ++ more)
        ≡ elim (find_where key rows) [ none ↦ find_where key more | some r ↦ some r ]
  unfolding find_where
  find_where-append key [] more = refl
  find_where-append key (r ∷ rows) more = ground (arith, find_where-append key rows more)

  pub count_where-of_none :
      (key : Row → Bool) (rows : List Row) → find_where key rows ≡ none → count_where key rows ≡ 0
  unfolding find_where count_where
  count_where-of_none key [] h = refl
  count_where-of_none key (r ∷ rows) h = ground (arith, count_where-of_none key rows)

  count_where-and_le :
      (key test : Row → Bool) (rows : List Row)
      → count_where (λ r. key r && test r) rows ≤ count_where key rows
  unfolding count_where
  count_where-and_le key test [] = omega arith
  count_where-and_le key test (r ∷ rows) = ground (arith, count_where-and_le key test rows)

  -- Where a key stands in one row at most, the row count of a keyed statement is 1 exactly when the
  -- row of the key meets the rest of the clause, and 0 otherwise.
  pub count_where-keyed :
      (key test : Row → Bool) (rows : List Row)
      → count_where key rows ≤ 1
      → count_where (λ r. key r && test r) rows
        ≡ (if meets test (find_where key rows) then 1 else 0)
  unfolding find_where count_where
  count_where-keyed key test [] unique = refl
  count_where-keyed key test (r ∷ rows) unique =
      ground (arith, count_where-keyed key test rows, count_where-and_le key test rows)

  -- What a lookup finds meets its clause.
  pub find_where-meets :
      (key : Row → Bool) (rows : List Row) (r : Row) → find_where key rows ≡ some r → key r ≡ true
  unfolding find_where
  find_where-meets key [] r h = cc
  find_where-meets key (q ∷ rows) r h = ground (arith, find_where-meets key rows r)

  -- Among the selected rows one has a property exactly when some row has both.
  pub any-select_where :
      (key test : Row → Bool) (rows : List Row)
      → any key (select_where test rows) ≡ leb 1 (count_where (λ r. key r && test r) rows)
  unfolding select_where count_where
  any-select_where key test [] = refl
  any-select_where key test (r ∷ rows) = ground (arith, any-select_where key test rows)

  -- A row that one lookup finds fails a clause that no row meets.
  pub fails-of_none :
      (test key : Row → Bool) (rows : List Row) (r : Row)
      → find_where test rows ≡ none
      → find_where key rows ≡ some r
      → test r ≡ false
  unfolding find_where
  fails-of_none test key [] r none_meets found = cc
  fails-of_none test key (q ∷ rows) r none_meets found =
      ground (arith, fails-of_none test key rows r)

  pub any-of_count :
      (test : Row → Bool) (rows : List Row) → any test rows ≡ leb 1 (count_where test rows)
  unfolding count_where
  any-of_count test [] = refl
  any-of_count test (r ∷ rows) = ground (arith, any-of_count test rows)

  pub count_where_pos :
      (test : Row → Bool) (rows : List Row) (r : Row)
      → find_where test rows ≡ some r
      → 1 ≤ count_where test rows
  unfolding find_where count_where
  count_where_pos test [] r found = cc
  count_where_pos test (q ∷ rows) r found = ground (arith, count_where_pos test rows r)

  count_where-insert_by :
      (key : Row → ℕ) (test : Row → Bool) (r : Row) (rows : List Row)
      → count_where test (insert_by key r rows) ≡ (if test r then 1 else 0) + count_where test rows
  unfolding insert_by count_where
  count_where-insert_by key test r [] = ground arith
  count_where-insert_by key test r (q ∷ rows) =
      ground (arith, count_where-insert_by key test r rows)

  -- ORDER BY neither loses nor doubles a row.
  pub count_where-order_by :
      (key : Row → ℕ) (test : Row → Bool) (rows : List Row)
      → count_where test (order_by key rows) ≡ count_where test rows
  unfolding order_by count_where
  count_where-order_by key test [] = refl
  count_where-order_by key test (r ∷ rows) = ground (
    arith,
    count_where-insert_by key test r (order_by key rows),
    count_where-order_by key test rows,
  )

  pub count_where-select_where :
      (test key : Row → Bool) (rows : List Row)
      → count_where key (select_where test rows) ≡ count_where (λ r. key r && test r) rows
  unfolding select_where count_where
  count_where-select_where test key [] = refl
  count_where-select_where test key (r ∷ rows) =
      ground (arith, count_where-select_where test key rows)

pub any-map {ℓ κ} :
    {A : Type ℓ} {B : Type κ} (test : B → Bool) (f : A → B) (xs : List A)
    → any test (map f xs) ≡ any (λ x. test (f x)) xs
any-map test f [] = refl
any-map test f (x ∷ xs) = ground (arith, any-map test f xs)

-- The selected rows meet the clause, and what holds of all rows holds of them.
pub All-select_where {ℓ} :
    {A : Type ℓ} (test : A → Bool) (xs : List A) → All (λ x. test x ≡ true) (select_where test xs)
unfolding select_where
All-select_where test [] = tt
All-select_where test (x ∷ xs) =
    if_holds (All (λ y. test y ≡ true)) (test x) (λ e. (e, All-select_where test xs))
      (λ _. All-select_where test xs)

pub All-select_where_of {ℓ κ} :
    {A : Type ℓ} (P : A → Type κ) (test : A → Bool) (xs : List A)
    → All P xs
    → All P (select_where test xs)
unfolding select_where
All-select_where_of P test [] a = tt
All-select_where_of P test (x ∷ xs) (h, a) =
    if_holds (All P) (test x) (λ _. (h, All-select_where_of P test xs a))
      (λ _. All-select_where_of P test xs a)
