-- ===== src/Prisma.antt =====
-- The Prisma client, which is not part of the repository: a parameter of the services, with what
-- they rely on. A table is the list of its rows, in no order that the services may rely on.
pub mod Rows
pub mod Keys
pub mod ByLists
pub mod Windows
use mathlib.Core.List.{Permᴰ}
use nestjs_saas.Ordering.{Key, Sorted}
use nestjs_saas.Prelude.{
  ℕ, Bool, true, false, Option, none, some, List, ◌∷◌, map, Memᴰ, ◌≡◌, All, length, keep, exists,
  if◌then◌else◌, not,
}

pub record Prisma : Type 1 where
  -- `findFirst`, `findUnique`: a row of the table that meets the condition, `null` if there is none.
  pub find_first : {R : Type 0} → (R → Bool) → List R → Option R
  pub find_first_sound :
      {R : Type 0} (test : R → Bool) (rows : List R) (r : R)
      → find_first test rows ≡ some r
      → (test r ≡ true) × Memᴰ r rows
  pub find_first_complete :
      {R : Type 0} (test : R → Bool) (rows : List R)
      → find_first test rows ≡ none
      → All (λ r. test r ≡ false) rows
  -- `findMany` with a condition and an order
  pub find_many : {R : Type 0} → (R → Bool) → List (Key R) → List R → List R
  pub find_many_perm :
      {R : Type 0} (test : R → Bool) (keys : List (Key R)) (rows : List R)
      → Permᴰ (keep test rows) (find_many test keys rows)
  pub find_many_sorted :
      {R : Type 0} (test : R → Bool) (keys : List (Key R)) (rows : List R)
      → Sorted keys (find_many test keys rows)
  pub count : {R : Type 0} → (R → Bool) → List R → ℕ
  pub count_lem :
      {R : Type 0} (test : R → Bool) (rows : List R) → count test rows ≡ length (keep test rows)
  -- `create` is rejected (P2002) where a row that is there clashes with the new one on a unique key.
  pub create : {R : Type 0} → (R → Bool) → R → List R → Option (List R)
  pub create_lem :
      {R : Type 0} (clash : R → Bool) (r : R) (rows : List R)
      → create clash r rows ≡ (if exists clash rows then none else some (r ∷ rows))
  -- `updateMany`, and `update` of a row that is there: the rows counted, and the new table.
  pub update_many : {R : Type 0} → (R → Bool) → (R → R) → List R → ℕ × List R
  pub update_many_lem :
      {R : Type 0} (test : R → Bool) (change : R → R) (rows : List R)
      → update_many test change rows
        ≡ (length (keep test rows), map (λ r. if test r then change r else r) rows)
  pub delete_many : {R : Type 0} → (R → Bool) → List R → ℕ × List R
  pub delete_many_lem :
      {R : Type 0} (test : R → Bool) (rows : List R)
      → delete_many test rows ≡ (length (keep test rows), keep (λ r. not (test r)) rows)
