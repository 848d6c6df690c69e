-- ===== src/Ordering.antt =====
-- `orderBy` of the Prisma client: keys, the order they give, and lists in that order. A date or a
-- sort order is a number.
pub mod Insertion
use nestjs_saas.Prelude.{ℕ, Bool, true, ◌&&◌, ◌||◌, List, [], ◌∷◌, ltb, nat_eq, ◌≡◌, All}

pub data Key (R : Type 0) : Type 0 where
  ascending : (R → ℕ) → Key R
  descending : (R → ℕ) → Key R

module _ {R : Type 0} where
  -- May the first row stand before the second?
  unfoldable pub may_precede : List (Key R) → R → R → Bool
  may_precede [] a b = true
  may_precede (ascending k ∷ keys) a b =
      ltb (k a) (k b) || (nat_eq (k a) (k b) && may_precede keys a b)
  may_precede (descending k ∷ keys) a b =
      ltb (k b) (k a) || (nat_eq (k a) (k b) && may_precede keys a b)

  abbrev pub Sorted : List (Key R) → List R → Type 0
  Sorted keys [] = Unit
  Sorted keys (r ∷ rows) = All (λ x. may_precede keys r x ≡ true) rows × Sorted keys rows
