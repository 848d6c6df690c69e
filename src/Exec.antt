-- ===== src/Exec.antt =====
-- Asynchronous service methods as actions on a state: each `await` that writes is one step, and
-- what was written before a throw stays written, so the state comes back beside the error too.
pub mod Keeps
use nestjs_saas.Prelude.{
  ℕ, String, Option, none, some, Bool, true, false, ◌≡◌, ◌⊎◌, refl, inl, inr, arith,
}

-- What a method throws: an `HttpException` or an `RpcException` with its status, a rejection of the
-- database client by its code, or a plain `Error`.
pub data Error : Type 0 where
  exception : (status : ℕ) (message : String) → Error
  rpc_exception : (status_code : ℕ) (message : String) → Error
  prisma_error : (code : String) → Error
  plain_error : (message : String) → Error

pub data Result {ℓ} (A : Type ℓ) : Type ℓ where
  ok : A → Result A
  err : Error → Result A

abbrev pub Action {ℓ κ} : Type ℓ → Type κ → Type (ℓ ⊔ κ)
Action S A = S → Result A × S

module _ {ℓ κ} {S : Type ℓ} {A : Type κ} where
  unfoldable pub pure : A → Action S A
  pure a s = (ok a, s)

  unfoldable pub throw : Error → Action S A
  throw e s = (err e, s)

  unfoldable pub gets : (S → A) → Action S A
  gets f s = (ok (f s), s)

  unfoldable pub lift : Result A → Action S A
  lift r s = (r, s)

  -- `if (!row) throw e`
  unfoldable pub or_throw : Option A → Error → Action S A
  or_throw none e s = (err e, s)
  or_throw (some a) e s = (ok a, s)

module _ {ℓ} {S : Type ℓ} where
  -- `if (test) throw e`
  unfoldable pub throw_if : Bool → Error → Action S (Unit {0})
  throw_if true e s = (err e, s)
  throw_if false e s = (ok tt, s)

  unfoldable pub modify : (S → S) → Action S (Unit {0})
  modify f s = (ok tt, f s)

module _ {ℓ κ ι} {S : Type ℓ} {A : Type κ} {B : Type ι} where
  abbrev pub continue : Result A → (A → Action S B) → Action S B
  continue (ok a) f s = f a s
  continue (err e) f s = (err e, s)

  infixl 5 ◌>>=◌
  -- to open this is to open the actions above too
  unfoldable pub ◌>>=◌ : Action S A → (A → Action S B) → Action S B
  unfolding pure throw gets lift or_throw throw_if modify
  ◌>>=◌ m f s = continue (m s).0 f (m s).1

module _ {ℓ κ} {S : Type ℓ} {A : Type κ} where
  -- `try { m } catch (e) { … }`: the handler starts from what was written before the throw.
  abbrev pub try_catch : Action S A → (Error → Action S A) → Action S A
  try_catch m handler s = elim (m s).0 [ ok a ↦ (ok a, (m s).1) | err e ↦ handler e (m s).1 ]

-- `err.message`; a rejection of the client is known by its code only.
abbrev pub message_of : Error → String
message_of (exception status message) = message
message_of (rpc_exception status_code message) = message
message_of (prisma_error code) = code
message_of (plain_error message) = message

module _ {ℓ κ} {S : Type ℓ} {B : Type κ} where
  infixl 5 ◌>>◌
  abbrev pub ◌>>◌ : Action S (Unit {0}) → Action S B → Action S B
  m >> k = m >>= λ _. k

abbrev pub bad_request : String → Error
bad_request = exception 400

abbrev pub unauthorized : String → Error
unauthorized = exception 401

abbrev pub forbidden : String → Error
forbidden = exception 403

abbrev pub not_found : String → Error
not_found = exception 404

abbrev pub conflict : String → Error
conflict = exception 409

abbrev pub service_unavailable : String → Error
service_unavailable = exception 503

pub Result-cases {ℓ} :
    {A : Type ℓ} (r : Result A) → ((a : A) × (r ≡ ok a)) ⊎ ((e : Error) × (r ≡ err e))
Result-cases (ok a) = inl (a, refl)
Result-cases (err e) = inr (e, refl)

-- The parts of a block that returned.
module _ {ℓ κ ι} {S : Type ℓ} {A : Type κ} {B : Type ι} where
  pub >>=-eq-ok :
      (m : Action S A) (f : A → Action S B) (s : S) {b : B} {s' : S}
      → (m >>= f) s ≡ (ok b, s')
      → (a : A) × (t : S) × (m s ≡ (ok a, t)) × (f a t ≡ (ok b, s'))
  unfolding ◌>>=◌
  >>=-eq-ok m f s {b = b} {s' = s'} e = go (m s) refl e
    where
      go :
          (r : Result A × S)
          → m s ≡ r
          → continue r.0 f r.1 ≡ (ok b, s')
          → (a : A) × (t : S) × (m s ≡ (ok a, t)) × (f a t ≡ (ok b, s'))
      go (ok a, t) p q = (a, t, p, q)
      go (err x, t) p q = cc

  pub or_throw-eq-ok :
      (o : Option A) (x : Error) (f : A → Action S B) (s : S) {b : B} {s' : S}
      → (or_throw o x >>= f) s ≡ (ok b, s')
      → (a : A) × (o ≡ some a) × (f a s ≡ (ok b, s'))
  unfolding ◌>>=◌
  or_throw-eq-ok none x f s e = cc
  or_throw-eq-ok (some a) x f s e = (a, refl, e)

  pub lift-eq-ok :
      (r : Result A) (f : A → Action S B) (s : S) {b : B} {s' : S}
      → (lift r >>= f) s ≡ (ok b, s')
      → (a : A) × (r ≡ ok a) × (f a s ≡ (ok b, s'))
  unfolding ◌>>=◌
  lift-eq-ok (err x) f s e = cc
  lift-eq-ok (ok a) f s e = (a, refl, e)

  pub gets-eq :
      (g : S → A) (f : A → Action S B) (s : S) {r : Result B × S}
      → (gets g >>= f) s ≡ r
      → f (g s) s ≡ r
  unfolding ◌>>=◌
  gets-eq g f s e = e

module _ {ℓ κ} {S : Type ℓ} {B : Type κ} where
  pub throw_if-eq-ok :
      (t : Bool) (x : Error) (k : Action S B) (s : S) {b : B} {s' : S}
      → (throw_if t x >> k) s ≡ (ok b, s')
      → (t ≡ false) × (k s ≡ (ok b, s'))
  unfolding ◌>>=◌
  throw_if-eq-ok true x k s e = cc
  throw_if-eq-ok false x k s e = (refl, e)

  pub pure-eq-ok : (a : B) (s : S) {b : B} {s' : S} → pure a s ≡ (ok b, s') → (a ≡ b) × (s ≡ s')
  unfolding pure
  pure-eq-ok a s e = (ground arith, ground arith)

  pub modify-eq :
      (g : S → S) (k : Action S B) (s : S) {r : Result B × S} → (modify g >> k) s ≡ r → k (g s) ≡ r
  unfolding ◌>>=◌
  modify-eq g k s e = e
