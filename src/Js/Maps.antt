-- ===== src/Js/Maps.antt =====
-- A `Map` of JavaScript with texts for keys, as the list of its entries in the order of insertion.
use nestjs_saas.Prelude.{
  ℕ, ◌+◌, String, Bool, false, List, [], ◌∷◌, if◌then◌else◌, ◌≡◌, ap, arith, Bool-cases, inl, inr,
  ◌==◌, eq_iff, All,
}
use nestjs_saas.Prisma.Keys.{Keyed}

-- `map.set(key, change(map.get(key) ?? init))`
abbrev pub put : {V : Type 0} → String → V → (V → V) → List (String × V) → List (String × V)
put key init change [] = (key, change init) ∷ []
put key init change ((k, v) ∷ rows) =
    let rest = put key init change rows in if k == key then (k, change v) ∷ rows else (k, v) ∷ rest

-- The sum of a number over the entries of a key.
abbrev pub sum_at : {V : Type 0} → (V → ℕ) → String → List (String × V) → ℕ
sum_at f key [] = 0
sum_at f key ((k, v) ∷ rows) = let rest = sum_at f key rows in if k == key then f v + rest else rest

abbrev pub same_entry : {V : Type 0} → String × V → String × V → Bool
same_entry a b = b.0 == a.0

module _ {V : Type 0} (init : V) (change : V → V) where
  -- A change by which the number grows by a fixed amount makes the sum of its key grow by it.
  pub sum_at-put :
      (f : V → ℕ) (gain : ℕ)
      → f init ≡ 0
      → ((v : V) → f (change v) ≡ gain + f v)
      → (key added : String) (rows : List (String × V))
      → sum_at f key (put added init change rows)
        ≡ (if added == key then gain else 0) + sum_at f key rows
  sum_at-put f gain zero grows key added [] = ground (arith, zero, grows init)
  sum_at-put f gain zero grows key added ((k, v) ∷ rows) = elim (Bool-cases (k == added)) [
    | inl same ↦
        let is : k ≡ added = ground (arith, same, eq_iff k added) in
        ground (arith, same, ap (λ t. t == key) is, grows v)
    | inr other ↦ ground (arith, other, sum_at-put f gain zero grows key added rows)
  ]

  put-All :
      (a : String × V) (added : String) (rows : List (String × V))
      → (added == a.0) ≡ false
      → All (λ b. same_entry a b ≡ false) rows
      → All (λ b. same_entry a b ≡ false) (put added init change rows)
  put-All a added [] other h = (other, tt)
  put-All a added ((k, v) ∷ rows) other h = elim (Bool-cases (k == added)) [
    | inl same ↦ ground (arith, same, h)
    | inr apart ↦ ground (arith, apart, h.0, put-All a added rows other h.1)
  ]

  pub put-Keyed :
      (added : String) (rows : List (String × V))
      → Keyed same_entry rows
      → Keyed same_entry (put added init change rows)
  put-Keyed added [] h = (tt, tt)
  put-Keyed added ((k, v) ∷ rows) h = elim (Bool-cases (k == added)) [
    | inl same ↦ ground (arith, same, h)
    | inr apart ↦
        let other : (added == k) ≡ false = ground (arith, apart, eq_iff k added, eq_iff added k) in
        ground (arith, apart, put-All (k, v) added rows other h.0, put-Keyed added rows h.1)
  ]
