-- ===== src/Prisma/Rows.antt =====
-- What the client's laws say of a query over a changed table.
use nestjs_saas.Prelude.{
  Bool, true, false, not, none, some, List, [], ◌∷◌, ◌≡◌, refl, ap, ◌∙◌, Memᴰ, All, All-at, All-map,
  All-of_map, All-keep, All-imp, All-perm, keep-All, exists, if◌then◌else◌, map, Option-cases,
  Bool-cases, ◌⊎◌, inl, inr, arith,
}
use nestjs_saas.Prisma.{Prisma}
use nestjs_saas.Ordering.{Key}

module _ (prisma : Prisma) {R : Type 0} where
  open prisma use {find_first, find_first_sound, find_first_complete}

  -- A query finds nothing where no row meets its condition.
  pub find_first-eq-none :
      (test : R → Bool) (rows : List R)
      → All (λ r. test r ≡ false) rows
      → find_first test rows ≡ none
  find_first-eq-none test rows h = elim (Option-cases (find_first test rows)) [
    | inl e ↦ e
    | inr (r, e) ↦
        let (met, listed) = find_first_sound test rows r e in
        cc (met, All-at (λ x. test x ≡ false) rows h listed)
  ]

  -- What holds of every row holds of the row that a query finds.
  pub All-find_first {κ} :
      (P : R → Type κ) (test : R → Bool) (rows : List R) (r : R)
      → All P rows
      → find_first test rows ≡ some r
      → P r
  All-find_first P test rows r h e = All-at P rows h (find_first_sound test rows r e).1

  pub find_first-test :
      (test : R → Bool) (rows : List R) (r : R) → find_first test rows ≡ some r → test r ≡ true
  find_first-test test rows r e = (find_first_sound test rows r e).0

  none_of_exists :
      (test : R → Bool) (rows : List R) → exists test rows ≡ false → All (λ r. test r ≡ false) rows
  none_of_exists test [] e = tt
  none_of_exists test (r ∷ rows) e = ground (arith, none_of_exists test rows)

  -- A row is created in front, and clashes with none.
  pub created :
      (clash : R → Bool) (r : R) (rows : List R) {rows' : List R}
      → prisma.create clash r rows ≡ some rows'
      → (rows' ≡ r ∷ rows) × All (λ x. clash x ≡ false) rows
  created clash r rows e = ground (arith, prisma.create_lem clash r rows, none_of_exists clash rows)

  -- A predicate on every row of an updated table.
  pub All-update_many {κ} :
      (P : R → Type κ) (test : R → Bool) (change : R → R) (rows : List R)
      → All (λ r. P (if test r then change r else r)) rows
      → All P (prisma.update_many test change rows).1
  All-update_many P test change rows h =
      rw prisma.update_many_lem (All-map P (λ r. if test r then change r else r) rows h)

  pub All-delete_many {κ} :
      (P : R → Type κ) (test : R → Bool) (rows : List R)
      → All P rows
      → All P (prisma.delete_many test rows).1
  All-delete_many P test rows h = rw prisma.delete_many_lem (All-keep P (λ r. not (test r)) rows h)

  -- The only row that meets the condition is the one that is found.
  pub find_first_only :
      (test : R → Bool) (r : R) (rows : List R)
      → test r ≡ true
      → All (λ x. test x ≡ false) rows
      → find_first test (r ∷ rows) ≡ some r
  find_first_only test r rows met others = elim (Option-cases (find_first test (r ∷ rows))) [
    | inl e ↦ cc (met, (find_first_complete test (r ∷ rows) e).0)
    | inr (x, e) ↦ only x e (find_first_sound test (r ∷ rows) x e)
  ]
    where
      only :
          (x : R)
          → find_first test (r ∷ rows) ≡ some x
          → (test x ≡ true) × Memᴰ x (r ∷ rows)
          → find_first test (r ∷ rows) ≡ some r
      only x e (t, Memᴰ.head same) = e ∙ ap some same
      only x e (t, Memᴰ.tail m) = cc (t, All-at (λ y. test y ≡ false) rows others m)

  none_exists :
      (test : R → Bool) (rows : List R) → All (λ r. test r ≡ false) rows → exists test rows ≡ false
  none_exists test [] h = refl
  none_exists test (r ∷ rows) h = ground (arith, h.0, none_exists test rows h.1)

  -- A row that clashes with none is created.
  pub create_free :
      (clash : R → Bool) (r : R) (rows : List R)
      → All (λ x. clash x ≡ false) rows
      → prisma.create clash r rows ≡ some (r ∷ rows)
  create_free clash r rows h =
      ground (arith, prisma.create_lem clash r rows, none_exists clash rows h)

  pub mem_of_map :
      (f : R → R) (rows : List R) {y : R} → Memᴰ y (map f rows) → (x : R) × Memᴰ x rows × (y ≡ f x)
  mem_of_map f [] m = elim m [ ]
  mem_of_map f (r ∷ rows) (Memᴰ.head e) = (r, Memᴰ.head refl, e)
  mem_of_map f (r ∷ rows) (Memᴰ.tail m) =
      let (x, listed, e) = mem_of_map f rows m in (x, Memᴰ.tail listed, e)

  -- A row that the update did not hide from its own condition is found again, changed.
  pub find_first-update_many :
      (test : R → Bool) (change : R → R) (rows : List R) (r : R)
      → find_first test rows ≡ some r
      → ((x : R) → test x ≡ true → test (change x) ≡ true)
      → (x : R) × Memᴰ x rows
        × (test x ≡ true)
        × (find_first test (prisma.update_many test change rows).1 ≡ some (change x))
  find_first-update_many test change rows r e still =
      rw prisma.update_many_lem (again (Option-cases (find_first test (map f rows))))
    where
      f : R → R
      f x = if test x then change x else x

      again :
          (find_first test (map f rows) ≡ none)
            ⊎ ((y : R) × (find_first test (map f rows) ≡ some y))
          → (x : R) × Memᴰ x rows
            × (test x ≡ true)
            × (find_first test (map f rows) ≡ some (change x))
      again (inl missing) =
          let (met, listed) = find_first_sound test rows r e in
          let gone =
            All-at (λ x. test (f x) ≡ false) rows
              (All-of_map (λ x. test x ≡ false) f rows
                (find_first_complete test (map f rows) missing))
              listed in
          ground (arith, met, gone, still r met)
      again (inr (y, found)) =
          let (met, listed) = find_first_sound test (map f rows) y found in
          let (x, there, same) = mem_of_map f rows listed in
          elim (Bool-cases (test x)) [
            | inl t ↦ (x, there, t, ground (arith, same, found, t))
            | inr other ↦ ground (arith, same, met, other)
          ]

  -- The rows of a list query meet its condition, and what holds of every row holds of them.
  pub find_many-test :
      (test : R → Bool) (keys : List (Key R)) (rows : List R)
      → All (λ r. test r ≡ true) (prisma.find_many test keys rows)
  find_many-test test keys rows =
      All-perm _ (prisma.find_many_perm test keys rows) (keep-All test rows)

  pub All-find_many {κ} :
      (P : R → Type κ) (test : R → Bool) (keys : List (Key R)) (rows : List R)
      → All P rows
      → All P (prisma.find_many test keys rows)
  All-find_many P test keys rows h =
      All-perm P (prisma.find_many_perm test keys rows) (All-keep P test rows h)

  -- A row that an update changes is there, changed.
  pub mem_updated :
      (test : R → Bool) (change : R → R) (rows : List R) (r : R)
      → Memᴰ r rows
      → test r ≡ true
      → Memᴰ (change r) (prisma.update_many test change rows).1
  mem_updated test change rows r listed met = rw prisma.update_many_lem (go rows listed)
    where
      go :
          (rows : List R)
          → Memᴰ r rows
          → Memᴰ (change r) (map (λ x. if test x then change x else x) rows)
      go [] m = elim m [ ]
      go (x ∷ rows) (Memᴰ.head e) = Memᴰ.head (ground (arith, met, ap test e, ap change e))
      go (x ∷ rows) (Memᴰ.tail m) = Memᴰ.tail (go rows m)

  -- Nothing that was deleted is found.
  pub find_first-delete_many :
      (test : R → Bool) (rows : List R) → find_first test (prisma.delete_many test rows).1 ≡ none
  find_first-delete_many test rows = rw prisma.delete_many_lem (
      find_first-eq-none test _
        (All-imp (λ r kept. ground (arith, kept)) _ (keep-All (λ r. not (test r)) rows)))
