-- ===== src/Prelude/Lists.antt =====
-- Lists measured by native numbers, and predicates on all the rows of a list.
use mathlib.Core.Path.{◌≡◌, refl, ap, subst}
use Prim.Native.Nat.{ℕ, zero, suc, ◌≤◌}
use mathlib.Core.Bool.{Bool, true, false}
use mathlib.Core.List.{List, [], ◌∷◌, map, Memᴰ, Permᴰ}
use native.Mathlib.Omega.{arith}
use nestjs_saas.Prelude.Tests.{if◌then◌else◌}

module _ {ℓ} {A : Type ℓ} where
  abbrev pub length : List A → ℕ
  length [] = 0
  length (x ∷ xs) = suc (length xs)

  abbrev pub take : ℕ → List A → List A
  take zero xs = []
  take (suc n) [] = []
  take (suc n) (x ∷ xs) = x ∷ take n xs

  abbrev pub keep : (A → Bool) → List A → List A
  keep p [] = []
  keep p (x ∷ xs) = let rest = keep p xs in if p x then x ∷ rest else rest

  abbrev pub exists : (A → Bool) → List A → Bool
  exists p [] = false
  exists p (x ∷ xs) = if p x then true else exists p xs

  pub length-take-le : (n : ℕ) (xs : List A) → length (take n xs) ≤ n
  length-take-le zero xs = omega arith
  length-take-le (suc n) [] = omega arith
  length-take-le (suc n) (x ∷ xs) = omega (arith, length-take-le n xs)

module _ {ℓ κ} {A : Type ℓ} where
  abbrev pub All : (A → Type κ) → List A → Type κ
  All P [] = Unit
  All P (x ∷ xs) = P x × All P xs

module _ {ℓ κ} {A : Type ℓ} (P : A → Type κ) where
  -- What holds of all the rows holds of each.
  pub All-at : (xs : List A) {x : A} → All P xs → Memᴰ x xs → P x
  All-at [] h m = elim m [ ]
  All-at (y ∷ ys) h (Memᴰ.head e) = rw e h.0
  All-at (y ∷ ys) h (Memᴰ.tail m) = All-at ys h.1 m

  -- A predicate that holds of every row of an updated table.
  pub All-map : (f : A → A) (xs : List A) → All (λ x. P (f x)) xs → All P (map f xs)
  All-map f [] h = tt
  All-map f (x ∷ xs) h = (h.0, All-map f xs h.1)

  pub All-of_map : (f : A → A) (xs : List A) → All P (map f xs) → All (λ x. P (f x)) xs
  All-of_map f [] h = tt
  All-of_map f (x ∷ xs) h = (h.0, All-of_map f xs h.1)

  pub All-keep : (p : A → Bool) (xs : List A) → All P xs → All P (keep p xs)
  All-keep p [] h = tt
  All-keep p (x ∷ xs) h = ground (arith, All-keep p xs h.1)

module _ {ℓ κ ι} {A : Type ℓ} {P : A → Type κ} {Q : A → Type ι} where
  pub All-imp : ((x : A) → P x → Q x) → (xs : List A) → All P xs → All Q xs
  All-imp f [] h = tt
  All-imp f (x ∷ xs) h = (f x h.0, All-imp f xs h.1)

module _ {ℓ κ} {A : Type ℓ} {P : A → Type κ} where
  pub All-of_each : ((x : A) → P x) → (xs : List A) → All P xs
  All-of_each f [] = tt
  All-of_each f (x ∷ xs) = (f x, All-of_each f xs)

module _ {ℓ κ} {A : Type ℓ} (P : A → Type κ) where
  pub All-perm : {xs ys : List A} → Permᴰ xs ys → All P xs → All P ys
  All-perm Permᴰ.nil h = tt
  All-perm (Permᴰ.cons e d) h = (subst P e h.0, All-perm d h.1)
  All-perm (Permᴰ.swap e f) h = (subst P f h.1.0, (subst P e h.0, h.1.1))
  All-perm (Permᴰ.trans d e) h = All-perm e (All-perm d h)

module _ {ℓ} {A : Type ℓ} where
  pub keep-All : (p : A → Bool) (xs : List A) → All (λ x. p x ≡ true) (keep p xs)
  keep-All p [] = tt
  keep-All p (x ∷ xs) = ground (arith, keep-All p xs)

module _ {ℓ κ ι} {A : Type ℓ} {P : A → Type κ} {Q : A → Type ι} where
  -- What is kept has passed the test.
  pub All-keep_imp :
      (p : A → Bool)
      → ((x : A) → p x ≡ true → P x → Q x)
      → (xs : List A) → All P xs
      → All Q (keep p xs)
  All-keep_imp p f [] h = tt
  All-keep_imp p f (x ∷ xs) h = go (p x) refl (All-keep_imp p f xs h.1)
    where
      go : (b : Bool) → p x ≡ b → All Q (keep p xs) → All Q (if b then x ∷ keep p xs else keep p xs)
      go true e rest = (f x e h.0, rest)
      go false e rest = rest

module _ {ℓ} {A : Type ℓ} where
  pub mem_of_keep : (p : A → Bool) (xs : List A) {x : A} → Memᴰ x (keep p xs) → Memᴰ x xs
  mem_of_keep p [] m = elim m [ ]
  mem_of_keep p (y ∷ ys) {x} m = go (p y) m (λ n. mem_of_keep p ys n)
    where
      go :
          (b : Bool)
          → Memᴰ x (if b then y ∷ keep p ys else keep p ys)
          → (Memᴰ x (keep p ys) → Memᴰ x ys)
          → Memᴰ x (y ∷ ys)
      go true (Memᴰ.head e) rest = Memᴰ.head e
      go true (Memᴰ.tail n) rest = Memᴰ.tail (rest n)
      go false n rest = Memᴰ.tail (rest n)

  -- A row that passes the test is there, and so is the answer that one is there.
  pub exists-found :
      (test : A → Bool) (xs : List A) {x : A} → test x ≡ true → Memᴰ x xs → exists test xs ≡ true
  exists-found test [] t m = elim m [ ]
  exists-found test (y ∷ ys) t (Memᴰ.head e) = ground (arith, t, e)
  exists-found test (y ∷ ys) t (Memᴰ.tail m) = ground (arith, exists-found test ys t m)

  pub found_of_exists :
      (test : A → Bool) (xs : List A)
      → exists test xs ≡ true
      → (x : A) × Memᴰ x xs × (test x ≡ true)
  found_of_exists test [] e = ground arith
  found_of_exists test (y ∷ ys) e = go (test y) refl e (found_of_exists test ys)
    where
      go :
          (b : Bool)
          → test y ≡ b
          → (if b then true else exists test ys) ≡ true
          → (exists test ys ≡ true → (x : A) × Memᴰ x ys × (test x ≡ true))
          → (x : A) × Memᴰ x (y ∷ ys) × (test x ≡ true)
      go true t e rest = (y, Memᴰ.head refl, t)
      go false f e rest = let (x, m, t) = rest e in (x, Memᴰ.tail m, t)

  pub mem-keep : (p : A → Bool) (xs : List A) {x : A} → p x ≡ true → Memᴰ x xs → Memᴰ x (keep p xs)
  mem-keep p [] t m = elim m [ ]
  mem-keep p (y ∷ ys) {x} t m = go (p y) refl m (λ n. mem-keep p ys t n)
    where
      go :
          (b : Bool)
          → p y ≡ b
          → Memᴰ x (y ∷ ys)
          → (Memᴰ x ys → Memᴰ x (keep p ys))
          → Memᴰ x (if b then y ∷ keep p ys else keep p ys)
      go true e (Memᴰ.head h) rest = Memᴰ.head h
      go true e (Memᴰ.tail n) rest = Memᴰ.tail (rest n)
      go false e (Memᴰ.head h) rest = ground (arith, ap p h)
      go false e (Memᴰ.tail n) rest = rest n

module _ {ℓ κ} {A : Type ℓ} {P : A → Type κ} where
  pub All-of_mem : (xs : List A) → ((x : A) → Memᴰ x xs → P x) → All P xs
  All-of_mem [] f = tt
  All-of_mem (x ∷ xs) f = (f x (Memᴰ.head refl), All-of_mem xs (λ y m. f y (Memᴰ.tail m)))

module _ {ℓ κ} {A : Type ℓ} where
  pub All-take : (P : A → Type κ) (n : ℕ) (xs : List A) → All P xs → All P (take n xs)
  All-take P zero xs h = tt
  All-take P (suc n) [] h = tt
  All-take P (suc n) (x ∷ xs) h = (h.0, All-take P n xs h.1)
