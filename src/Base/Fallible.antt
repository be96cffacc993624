-- ===== src/Base/Fallible.antt =====
-- A computation that returns a value or raises.
use mathlib.Core.Path.{◌≡◌, refl}
use mathlib.Core.Logic.{◌⊎◌, inl, inr}
use mathlib.Core.Bool.{Bool, true, false}

pub data Outcome {ℓ} (E A : Type ℓ) : Type ℓ where
  ok : A → Outcome E A
  err : E → Outcome E A

module _ {ℓ} {E A B : Type ℓ} where
  infixl 5 ◌>>=◌
  abbrev pub ◌>>=◌ : Outcome E A → (A → Outcome E B) → Outcome E B
  ok value >>= next = next value
  err raised >>= next = err raised

  -- A chain that returns: its first part returned a value, and the rest returned on it.
  pub >>=-eq-ok :
      (first : Outcome E A) (next : A → Outcome E B) {result : B}
      → (first >>= next) ≡ ok result
      → (value : A) × (first ≡ ok value) × (next value ≡ ok result)
  >>=-eq-ok (ok value) next returns = (value, refl, returns)
  >>=-eq-ok (err raised) next returns = cc

module _ {ℓ} {E B : Type ℓ} where
  infixl 5 ◌>>◌
  abbrev pub ◌>>◌ : Outcome E (Unit {ℓ}) → Outcome E B → Outcome E B
  m >> k = m >>= λ _. k

-- `if not ok: raise e`
abbrev pub require {ℓ} : {E : Type ℓ} → Bool → E → Outcome E (Unit {ℓ})
require true e = ok tt
require false e = err e

pub Outcome-cases {ℓ} :
    {E A : Type ℓ} (m : Outcome E A) → ((a : A) × (m ≡ ok a)) ⊎ ((e : E) × (m ≡ err e))
Outcome-cases (ok a) = inl (a, refl)
Outcome-cases (err e) = inr (e, refl)

pub require-eq-ok {ℓ} : {E : Type ℓ} (b : Bool) (e : E) {u : Unit} → require b e ≡ ok u → b ≡ true
require-eq-ok true e h = refl
require-eq-ok false e h = cc

-- What is raised, if anything is, satisfies the predicate.
abbrev pub OnError {ℓ κ} : {E A : Type ℓ} → (E → Type κ) → Outcome E A → Type κ
OnError P (ok a) = Unit
OnError P (err e) = P e

pub >>=-OnError {ℓ κ} :
    {E A B : Type ℓ} (P : E → Type κ) (m : Outcome E A) (f : A → Outcome E B)
    → OnError P m
    → ((a : A) → m ≡ ok a → OnError P (f a))
    → OnError P (m >>= f)
>>=-OnError P (ok a) f first rest = rest a refl
>>=-OnError P (err e) f first rest = first

-- Two parts that are read one after the other were both read.
pub both-eq-ok {ℓ} :
    {E A B : Type ℓ} (m : Outcome E A) (n : Outcome E B) {p : A × B}
    → (m >>= λ a. n >>= λ b. ok (a, b)) ≡ ok p
    → (m ≡ ok p.0) × (n ≡ ok p.1)
both-eq-ok (ok a) (ok b) h = (cc, cc)
both-eq-ok (ok a) (err e) h = cc
both-eq-ok (err e) n h = cc
