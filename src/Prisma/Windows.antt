-- ===== src/Prisma/Windows.antt =====
-- `take` of the Prisma client with an order by a date: the newest or the oldest rows of a query.
use mathlib.Core.List.{Permᴰ}
use nestjs_saas.Ordering.{Key, ascending, descending, may_precede, Sorted}
use nestjs_saas.Prelude.{
  ℕ, zero, suc, ◌≤◌, Bool, true, List, [], ◌∷◌, ◌++◌, ◌≡◌, ◌⊎◌, inl, inr, refl, ap, subst, arith,
  length, length-take-le, keep, take, All, All-imp,
}
use nestjs_saas.Prisma.{Prisma}

module _ {R : Type 0} where
  -- The rows are `n` of those that pass the test, or all of them if there are no more; and each row
  -- that is left out is behind each of them.
  abbrev pub IsWindow : ℕ → (R → Bool) → (R → R → Type 0) → List R → List R → Type 0
  IsWindow n test IsBehind table rows =
      (rest : List R) × Permᴰ (keep test table) (rows ++ rest)
      × (length rows ≤ n)
      × ((rest ≡ []) ⊎ (length rows ≡ n))
      × All (λ r. All (λ x. IsBehind x r) rest) rows

  -- The newest, and the oldest, `n` rows that pass the test
  abbrev pub Newest : ℕ → (R → Bool) → (R → ℕ) → List R → List R → Type 0
  Newest n test time = IsWindow n test (λ x r. time x ≤ time r)

  abbrev pub Oldest : ℕ → (R → Bool) → (R → ℕ) → List R → List R → Type 0
  Oldest n test time = IsWindow n test (λ x r. time r ≤ time x)

  abbrev drop : ℕ → List R → List R
  drop zero rows = rows
  drop (suc n) [] = []
  drop (suc n) (r ∷ rows) = drop n rows

  take-drop : (n : ℕ) (rows : List R) → rows ≡ take n rows ++ drop n rows
  take-drop zero rows = refl
  take-drop (suc n) [] = refl
  take-drop (suc n) (r ∷ rows) = ap (λ l. r ∷ l) (take-drop n rows)

  taken_all : (n : ℕ) (rows : List R) → (drop n rows ≡ []) ⊎ (length (take n rows) ≡ n)
  taken_all zero rows = inr refl
  taken_all (suc n) [] = inl refl
  taken_all (suc n) (r ∷ rows) = elim (taken_all n rows) [
    | inl none_left ↦ inl none_left
    | inr full ↦ inr (ap suc full)
  ]

  All-drop {κ} : (P : R → Type κ) (n : ℕ) (rows : List R) → All P rows → All P (drop n rows)
  All-drop P zero rows h = h
  All-drop P (suc n) [] h = tt
  All-drop P (suc n) (r ∷ rows) h = All-drop P n rows h.1

  module _ (keys : List (Key R)) (IsBehind : R → R → Type 0)
      (behind : (r x : R) → may_precede keys r x ≡ true → IsBehind x r) where
    dropped :
        (n : ℕ) (rows : List R)
        → Sorted keys rows
        → All (λ r. All (λ x. IsBehind x r) (drop n rows)) (take n rows)
    dropped zero rows h = tt
    dropped (suc n) [] h = tt
    dropped (suc n) (r ∷ rows) h =
        (All-imp (behind r) (drop n rows) (All-drop _ n rows h.0), dropped n rows h.1)

    take-IsWindow :
        (prisma : Prisma) (n : ℕ) (test : R → Bool) (table : List R)
        → IsWindow n test IsBehind table (take n (prisma.find_many test keys table))
    take-IsWindow prisma n test table =
        let found = prisma.find_many test keys table in
        (
          drop n found,
          subst (λ l. Permᴰ (keep test table) l) (take-drop n found)
              (prisma.find_many_perm test keys table),
          length-take-le n found,
          taken_all n found,
          dropped n found (prisma.find_many_sorted test keys table),
        )

  behind_newest :
      (time : R → ℕ) (r x : R) → may_precede (descending time ∷ []) r x ≡ true → time x ≤ time r
  unfolding may_precede
  behind_newest time r x e = ground (arith, e)

  behind_oldest :
      (time : R → ℕ) (r x : R) → may_precede (ascending time ∷ []) r x ≡ true → time r ≤ time x
  unfolding may_precede
  behind_oldest time r x e = ground (arith, e)

  pub take-Newest :
      (prisma : Prisma) (n : ℕ) (test : R → Bool) (time : R → ℕ) (table : List R)
      → Newest n test time table (take n (prisma.find_many test (descending time ∷ []) table))
  take-Newest prisma n test time table =
      take-IsWindow (descending time ∷ []) _ (behind_newest time) prisma n test table

  pub take-Oldest :
      (prisma : Prisma) (n : ℕ) (test : R → Bool) (time : R → ℕ) (table : List R)
      → Oldest n test time table (take n (prisma.find_many test (ascending time ∷ []) table))
  take-Oldest prisma n test time table =
      take-IsWindow (ascending time ∷ []) _ (behind_oldest time) prisma n test table
