-- ===== src/Base/Results.antt =====
-- What a service call ends in: a value, or one of the exceptions of `@nestjs/common`, whose message
-- is a `Reason` of the component, or (`failed`) an exception of the database.
use mathlib.Core.Path.{◌≡◌, refl}
use mathlib.Core.Bool.{Bool, true, false}
use mathlib.Core.Option.{Option, none, some}

pub data HttpError (R : Type 0) : Type 0 where
  not_found bad_request forbidden failed : R → HttpError R

pub data Result {ℓ} (R : Type 0) (A : Type ℓ) : Type ℓ where
  ok : A → Result R A
  err : HttpError R → Result R A

infixl 5 ◌>>=◌ ◌>>◌
unfoldable pub ◌>>=◌ {ℓ κ} :
    {R : Type 0} {A : Type ℓ} {B : Type κ} → Result R A → (A → Result R B) → Result R B
ok a >>= f = f a
err e >>= f = err e

abbrev pub ◌>>◌ {ℓ} : {R : Type 0} {B : Type ℓ} → Result R (Unit {0}) → Result R B → Result R B
m >> k = m >>= λ _. k

module _ {R : Type 0} where
  -- `if (test) throw e`
  abbrev pub throw_if : Bool → HttpError R → Result R (Unit {0})
  throw_if true e = err e
  throw_if false e = ok tt

  -- `if (!row) throw e`
  abbrev pub or_throw {ℓ} : {A : Type ℓ} → Option A → HttpError R → Result R A
  or_throw none e = err e
  or_throw (some a) e = ok a

  -- In a transaction an exception leaves the state as it was.
  abbrev pub after {ℓ κ} : {S : Type ℓ} {A : Type κ} → S → Result R (A × S) → S
  after s (ok (_, s')) = s'
  after s (err _) = s

  pub ok_inj {ℓ} : {A : Type ℓ} {a b : A} → ◌≡◌ {A = Result R A} (ok a) (ok b) → a ≡ b
  ok_inj h = cc h

  pub >>=-eq-ok {ℓ κ} :
      {A : Type ℓ} {B : Type κ} (m : Result R A) (f : A → Result R B) {b : B}
      → (m >>= f) ≡ ok b
      → (a : A) × (m ≡ ok a) × (f a ≡ ok b)
  unfolding ◌>>=◌
  >>=-eq-ok (ok a) f h = (a, refl, h)
  >>=-eq-ok (err e) f h = cc

pub or_throw-eq-ok {ℓ} :
    {R : Type 0} {A : Type ℓ} (o : Option A) (e : HttpError R) {a : A}
    → or_throw o e ≡ ok a
    → o ≡ some a
or_throw-eq-ok none e h = cc
or_throw-eq-ok (some b) e h = cc

pub throw_if-eq-ok :
    {R : Type 0} (b : Bool) (e : HttpError R) {u : Unit {0}} → throw_if b e ≡ ok u → b ≡ false
throw_if-eq-ok true e h = cc
throw_if-eq-ok false e h = refl

-- What holds before a call holds after it, whether it returns or throws.
pub record Keeps {ℓ κ μ} {R : Type 0} {S : Type ℓ} {B : Type κ} (P : S → Type μ) (s : S)
    (r : Result R (B × S)) : Type μ where
  pub holds : P (after s r)

module _ {ℓ κ μ ν} {R : Type 0} {S : Type ℓ} {A : Type κ} {B : Type μ} {P : S → Type ν}
    {s : S} where
  -- The rest of the call may use that the step has returned.
  pub Keeps-bind :
      (m : Result R A) (f : A → Result R (B × S))
      → P s
      → ((a : A) → m ≡ ok a → Keeps P s (f a))
      → Keeps P s (m >>= f)
  unfolding ◌>>=◌
  Keeps-bind (ok a) f h k = k a refl
  Keeps-bind (err e) f h k = record { holds = h }
