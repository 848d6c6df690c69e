-- ===== src/Exec/Keeps.antt =====
-- What holds of the state after a block, whether it returns or throws: one rule for each kind of
-- statement at the head of the block.
use nestjs_saas.Prelude.{Bool, true, false, Option, none, some, ◌≡◌, refl}
use nestjs_saas.Exec.{
  Error, Result, ok, err, Action, pure, gets, lift, or_throw, throw_if, modify, ◌>>=◌, ◌>>◌,
  continue, try_catch,
}

module _ {ℓ κ ι} {S : Type ℓ} {B : Type κ} (P : S → Type ι) where
  pub after_throw_if :
      (t : Bool) (x : Error) (k : Action S B) (s : S)
      → P s
      → (t ≡ false → P (k s).1)
      → P ((throw_if t x >> k) s).1
  unfolding ◌>>=◌
  after_throw_if true x k s h rest = h
  after_throw_if false x k s h rest = rest refl

  pub after_modify : (g : S → S) (k : Action S B) (s : S) → P (k (g s)).1 → P ((modify g >> k) s).1
  unfolding ◌>>=◌
  after_modify g k s h = h

  pub after_pure : (b : B) (s : S) → P s → P (pure b s).1
  unfolding pure
  after_pure b s h = h

module _ {ℓ κ ι μ} {S : Type ℓ} {A : Type μ} {B : Type κ} (P : S → Type ι) where
  pub after_or_throw :
      (o : Option A) (x : Error) (f : A → Action S B) (s : S)
      → P s
      → ((a : A) → o ≡ some a → P (f a s).1)
      → P ((or_throw o x >>= f) s).1
  unfolding ◌>>=◌
  after_or_throw none x f s h rest = h
  after_or_throw (some a) x f s h rest = rest a refl

  pub after_lift :
      (r : Result A) (f : A → Action S B) (s : S)
      → P s
      → ((a : A) → r ≡ ok a → P (f a s).1)
      → P ((lift r >>= f) s).1
  unfolding ◌>>=◌
  after_lift (err x) f s h rest = h
  after_lift (ok a) f s h rest = rest a refl

  pub after_gets :
      (g : S → A) (f : A → Action S B) (s : S) → P (f (g s) s).1 → P ((gets g >>= f) s).1
  unfolding ◌>>=◌
  after_gets g f s h = h

  -- A call: what it leaves when it throws, and what follows when it returns.
  pub after_call :
      (m : Action S A) (f : A → Action S B) (s : S)
      → P (m s).1
      → ((a : A) → (m s).0 ≡ ok a → P (f a (m s).1).1)
      → P ((m >>= f) s).1
  unfolding ◌>>=◌
  after_call m f s h rest = go (m s).0 rest
    where
      go : (r : Result A) → ((a : A) → r ≡ ok a → P (f a (m s).1).1) → P (continue r f (m s).1).1
      go (ok a) rest = rest a refl
      go (err x) rest = h

module _ {ℓ κ ι} {S : Type ℓ} {A : Type κ} (P : S → Type ι) where
  pub after_try_catch :
      (m : Action S A) (handler : Error → Action S A) (s : S)
      → P (m s).1
      → ((x : Error) → P (handler x (m s).1).1)
      → P (try_catch m handler s).1
  after_try_catch m handler s h caught = go (m s).0
    where
      go :
          (r : Result A)
          → P
              (elim r as (λ r. Result A × S) [
                | ok a ↦ (ok a, (m s).1)
                | err e ↦ handler e (m s).1
              ]).1
      go (ok a) = h
      go (err e) = caught e

  -- A block that ends in a row or a throw.
  pub after_last_or_throw : (o : Option A) (x : Error) (s : S) → P s → P (or_throw o x s).1
  unfolding or_throw
  after_last_or_throw none x s h = h
  after_last_or_throw (some a) x s h = h
