-- ===== src/Prisma/Keys.antt =====
-- Unique keys: no two rows of a table clash, and each operation of the client keeps it so.
use nestjs_saas.Prelude.{
  Bool, true, false, not, some, List, [], ◌∷◌, map, ◌≡◌, sym, ◌∙◌, Memᴰ, All, All-at, All-keep,
  keep, if◌then◌else◌, inl, inr, arith, Bool-cases, Option-cases, ap,
}
use nestjs_saas.Prisma.{Prisma}
use nestjs_saas.Prisma.Rows.{created}

module _ {R : Type 0} (clash : R → R → Bool) where
  abbrev pub Keyed : List R → Type 0
  Keyed [] = Unit
  Keyed (r ∷ rows) = All (λ x. clash r x ≡ false) rows × Keyed rows

  pub Keyed-keep : (test : R → Bool) (rows : List R) → Keyed rows → Keyed (keep test rows)
  Keyed-keep test [] h = tt
  Keyed-keep test (r ∷ rows) h = elim (Bool-cases (test r)) [
    | inl t ↦ rw t (All-keep (λ x. clash r x ≡ false) test rows h.0, Keyed-keep test rows h.1)
    | inr f ↦ rw f (Keyed-keep test rows h.1)
  ]

  pub Keyed-map :
      (f : R → R)
      → ((r x : R) → clash (f r) (f x) ≡ clash r x)
      → (rows : List R) → Keyed rows
      → Keyed (map f rows)
  Keyed-map f same [] h = tt
  Keyed-map f same (r ∷ rows) h = (go rows h.0, Keyed-map f same rows h.1)
    where
      go :
          (xs : List R)
          → All (λ x. clash r x ≡ false) xs
          → All (λ x. clash (f r) x ≡ false) (map f xs)
      go [] a = tt
      go (x ∷ xs) a = (same r x ∙ a.0, go xs a.1)

  -- Two rows that clash both ways are one.
  pub Keyed-unique :
      (rows : List R)
      → Keyed rows
      → (a b : R) → Memᴰ a rows
      → Memᴰ b rows
      → clash a b ≡ true
      → clash b a ≡ true
      → a ≡ b
  Keyed-unique [] h a b m n e f = elim m [ ]
  Keyed-unique (r ∷ rows) h a b (Memᴰ.head p) (Memᴰ.head q) e f = p ∙ sym q
  Keyed-unique (r ∷ rows) h a b (Memᴰ.head p) (Memᴰ.tail n) e f =
      let apart = All-at (λ x. clash r x ≡ false) rows h.0 n in ground (arith, p)
  Keyed-unique (r ∷ rows) h a b (Memᴰ.tail m) (Memᴰ.head q) e f =
      let apart = All-at (λ x. clash r x ≡ false) rows h.0 m in ground (arith, q)
  Keyed-unique (r ∷ rows) h a b (Memᴰ.tail m) (Memᴰ.tail n) e f = Keyed-unique rows h.1 a b m n e f

  module _ (prisma : Prisma) where
    pub Keyed-create :
        (r : R) (rows rows' : List R)
        → prisma.create (clash r) r rows ≡ some rows'
        → Keyed rows
        → Keyed rows'
    Keyed-create r rows rows' e h =
        let (shape, apart) = created prisma (clash r) r rows e in rw shape (apart, h)

    pub Keyed-delete_many :
        (test : R → Bool) (rows : List R) → Keyed rows → Keyed (prisma.delete_many test rows).1
    Keyed-delete_many test rows h =
        rw prisma.delete_many_lem (Keyed-keep (λ r. not (test r)) rows h)

    pub Keyed-update_many :
        (test : R → Bool) (change : R → R)
        → ((r x : R)
            → clash (if test r then change r else r) (if test x then change x else x) ≡ clash r x)
        → (rows : List R) → Keyed rows
        → Keyed (prisma.update_many test change rows).1
    Keyed-update_many test change same rows h =
        rw prisma.update_many_lem (Keyed-map (λ r. if test r then change r else r) same rows h)

    -- Where each row that meets a condition clashes with one that does, that one is found.
    pub find_first-Keyed :
        (test : R → Bool) (rows : List R) (r : R)
        → Keyed rows
        → Memᴰ r rows
        → test r ≡ true
        → ((x : R) → test x ≡ true → (clash x r ≡ true) × (clash r x ≡ true))
        → prisma.find_first test rows ≡ some r
    find_first-Keyed test rows r keys listed met clashes =
        elim (Option-cases (prisma.find_first test rows)) [
          | inl missing ↦
              let unmet = All-at _ rows (prisma.find_first_complete test rows missing) listed in
              absurd (ground (arith, unmet, met))
          | inr (x, found) ↦
              let (met', listed') = prisma.find_first_sound test rows x found in
              found
              ∙ ap some
                  (Keyed-unique rows keys x r listed' listed (clashes x met').0 (clashes x met').1)
        ]
