-- ===== src/Prisma/ByLists.antt =====
-- A client over plain lists: it meets the laws, and the examples run on it.
use nestjs_saas.Prelude.{
  Bool, true, false, Option, none, some, List, [], ◌∷◌, map, Memᴰ, ◌≡◌, All, length, keep, exists,
  if◌then◌else◌, not, Bool-cases, inl, inr, arith, refl,
}
use nestjs_saas.Prisma.{Prisma}
use nestjs_saas.Ordering.Insertion.{sort, sort-Permᴰ, sort-Sorted}

module _ {R : Type 0} where
  abbrev first : (R → Bool) → List R → Option R
  first test [] = none
  first test (r ∷ rows) = if test r then some r else first test rows

  pub first_sound :
      (test : R → Bool) (rows : List R) (r : R)
      → first test rows ≡ some r
      → (test r ≡ true) × Memᴰ r rows
  first_sound test [] r e = cc
  first_sound test (x ∷ rows) r e = elim (Bool-cases (test x)) [
    | inl t ↦ (ground arith, Memᴰ.head (ground arith))
    | inr f ↦ let (t, m) = first_sound test rows r (rw f at e) in (t, Memᴰ.tail m)
  ]

  pub first_complete :
      (test : R → Bool) (rows : List R) → first test rows ≡ none → All (λ r. test r ≡ false) rows
  first_complete test [] e = tt
  first_complete test (x ∷ rows) e = ground (arith, first_complete test rows)

abbrev pub by_lists : Prisma
by_lists = record {
  find_first = first;
  find_first_sound = first_sound;
  find_first_complete = first_complete;
  find_many = λ test keys rows. sort keys (keep test rows);
  find_many_perm = λ test keys rows. sort-Permᴰ keys (keep test rows);
  find_many_sorted = λ test keys rows. sort-Sorted keys (keep test rows);
  count = λ test rows. length (keep test rows);
  count_lem = λ test rows. refl;
  create = λ clash r rows. if exists clash rows then none else some (r ∷ rows);
  create_lem = λ clash r rows. refl;
  update_many =
      λ test change rows. (length (keep test rows), map (λ r. if test r then change r else r) rows);
  update_many_lem = λ test change rows. refl;
  delete_many = λ test rows. (length (keep test rows), keep (λ r. not (test r)) rows);
  delete_many_lem = λ test rows. refl;
}
