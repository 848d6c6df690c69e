-- ===== src/Ordering/Insertion.antt =====
-- Insertion into a list in order, which shows that each list can be put in order.
use nestjs_saas.Prelude.{
  Bool, true, false, List, [], ◌∷◌, ◌≡◌, refl, All, All-imp, Bool-cases, if◌then◌else◌, inl, inr,
  arith,
}
use nestjs_saas.Ordering.{Key, ascending, descending, may_precede, Sorted}
use mathlib.Core.List.{Permᴰ}
use mathlib.Core.List.Permᴰ

module _ {R : Type 0} where
  may_precede-total :
      (keys : List (Key R)) (a b : R) → may_precede keys a b ≡ false → may_precede keys b a ≡ true
  unfolding may_precede
  may_precede-total [] a b e = refl
  may_precede-total (ascending k ∷ keys) a b e = ground (arith, may_precede-total keys a b)
  may_precede-total (descending k ∷ keys) a b e = ground (arith, may_precede-total keys a b)

  may_precede_trans :
      (keys : List (Key R)) (a b c : R)
      → may_precede keys a b ≡ true
      → may_precede keys b c ≡ true
      → may_precede keys a c ≡ true
  unfolding may_precede
  may_precede_trans [] a b c e f = refl
  may_precede_trans (ascending k ∷ keys) a b c e f = ground (arith, may_precede_trans keys a b c)
  may_precede_trans (descending k ∷ keys) a b c e f = ground (arith, may_precede_trans keys a b c)

  insert : List (Key R) → R → List R → List R
  insert keys x [] = x ∷ []
  insert keys x (y ∷ ys) =
      let rest = insert keys x ys in if may_precede keys x y then x ∷ y ∷ ys else y ∷ rest

  unfoldable pub sort : List (Key R) → List R → List R
  unfolding insert may_precede
  sort keys [] = []
  sort keys (r ∷ rows) = insert keys r (sort keys rows)

  insert-All :
      (P : R → Type 0) (keys : List (Key R)) (x : R) (ys : List R)
      → P x
      → All P ys
      → All P (insert keys x ys)
  unfolding insert
  insert-All P keys x [] p h = (p, tt)
  insert-All P keys x (y ∷ ys) p h = go (insert-All P keys x ys p h.1) (may_precede keys x y)
    where
      go :
          All P (insert keys x ys)
          → (b : Bool) → All P (if b then x ∷ y ∷ ys else y ∷ insert keys x ys)
      go rest true = (p, h)
      go rest false = (h.0, rest)

  insert-Sorted :
      (keys : List (Key R)) (x : R) (ys : List R) → Sorted keys ys → Sorted keys (insert keys x ys)
  unfolding insert
  insert-Sorted keys x [] h = (tt, tt)
  insert-Sorted keys x (y ∷ ys) h = elim (Bool-cases (may_precede keys x y)) [
    | inl before ↦
        rw before ((before, All-imp (λ z p. may_precede_trans keys x y z before p) ys h.0), h)
    | inr after ↦ rw after (
      insert-All (λ z. may_precede keys y z ≡ true) keys x ys (may_precede-total keys x y after)
          h.0,
      insert-Sorted keys x ys h.1,
    )
  ]

  pub sort-Sorted : (keys : List (Key R)) (rows : List R) → Sorted keys (sort keys rows)
  unfolding sort
  sort-Sorted keys [] = tt
  sort-Sorted keys (r ∷ rows) = insert-Sorted keys r (sort keys rows) (sort-Sorted keys rows)

  insert-Permᴰ : (keys : List (Key R)) (x : R) (ys : List R) → Permᴰ (x ∷ ys) (insert keys x ys)
  unfolding insert
  insert-Permᴰ keys x [] = Permᴰ.refl (x ∷ [])
  insert-Permᴰ keys x (y ∷ ys) = go (insert-Permᴰ keys x ys) (may_precede keys x y)
    where
      go :
          Permᴰ (x ∷ ys) (insert keys x ys)
          → (b : Bool) → Permᴰ (x ∷ y ∷ ys) (if b then x ∷ y ∷ ys else y ∷ insert keys x ys)
      go rest true = Permᴰ.refl (x ∷ y ∷ ys)
      go rest false = Permᴰ.trans (Permᴰ.swap refl refl) (Permᴰ.cons refl rest)

  pub sort-Permᴰ : (keys : List (Key R)) (rows : List R) → Permᴰ rows (sort keys rows)
  unfolding sort
  sort-Permᴰ keys [] = Permᴰ.nil
  sort-Permᴰ keys (r ∷ rows) =
      Permᴰ.trans (Permᴰ.cons refl (sort-Permᴰ keys rows)) (insert-Permᴰ keys r (sort keys rows))
