-- ===== src/Base/Equality.antt =====
-- The `==` of Python on values of one type: a decision for each type, found by instances.
use native.Mathlib.Decide
use mathlib.Core.Option.{Option, none, some}
use mathlib.Core.Bool.{Bool, true, false}
use text.Mathlib.TextEquality.{eq_iff}
use Prim.Native.Nat.{ℕ, ◌<◌, ◌≤◌, compare, Ordering}
use Prim.Native.String.{String}
use native.Mathlib.Omega.{arith}
use mathlib.Core.Path.{◌≡◌, refl}
use text.Mathlib.Text.{◌==◌ as str_eq}
use mathlib.Core.Logic.{◌⊎◌, inl, inr}
use mathlib.Core.List.{List}

infix 1 if◌then◌else◌
abbrev pub if◌then◌else◌ {ℓ} : {A : Type ℓ} → Bool → A → A → A
if true then x else y = x
if false then x else y = y

abbrev pub is {ℓ} : {A : Type ℓ} → Dec A → Bool
is (yes _) = true
is (no _) = false

pub record Eq {ℓ} (A : Type ℓ) : Type ℓ where
  pub same : Discrete A

infix 50 ◌==◌ ◌!=◌
abbrev pub ◌==◌ {ℓ} : {T : Type ℓ} ⦃decides : Eq T⦄ → T → T → Bool
◌==◌ ⦃decides⦄ x y = is (decides.same x y)

abbrev pub ◌!=◌ {ℓ} : {T : Type ℓ} ⦃decides : Eq T⦄ → T → T → Bool
◌!=◌ ⦃decides⦄ x y = if x == y then false else true

String_decide : (s t : String) (b : Bool) → str_eq s t ≡ b → Dec (s ≡ t)
String_decide s t true e = yes ((eq_iff s t).0 e)
String_decide s t false e = no (λ p. cc (e, (eq_iff s t).1 p))

unfoldable pub String_discrete : Discrete String
unfolding String_decide
String_discrete s t = String_decide s t (str_eq s t) refl

unfoldable pub Nat_discrete : Discrete ℕ
unfolding Decide.ℕ_discrete
Nat_discrete = Decide.ℕ_discrete

unfoldable pub Bool-discrete : Discrete Bool
Bool-discrete = hlevel

unfoldable pub Option-discrete {ℓ} : {A : Type ℓ} → Discrete A → Discrete (Option A)
Option-discrete d = hlevel d

unfoldable pub List-discrete {ℓ} : {A : Type ℓ} → Discrete A → Discrete (List A)
List-discrete d = hlevel d

instance abbrev pub nat_eq : Eq ℕ
nat_eq = record { same = Nat_discrete }

instance abbrev pub string_eq : Eq String
string_eq = record { same = String_discrete }

instance abbrev pub bool_eq : Eq Bool
bool_eq = record { same = Bool-discrete }

instance abbrev pub option_eq {ℓ} : {A : Type ℓ} ⦃e : Eq A⦄ → Eq (Option A)
option_eq ⦃e⦄ = record { same = Option-discrete e.same }

instance abbrev pub list_eq {ℓ} : {A : Type ℓ} ⦃e : Eq A⦄ → Eq (List A)
list_eq ⦃e⦄ = record { same = List-discrete e.same }

-- The orders of two numbers as tests; they compute to `compare`.
abbrev pub ltb : ℕ → ℕ → Bool
ltb a b = elim (compare a b) [ Ordering.lt ↦ true | _ ↦ false ]

abbrev pub leb : ℕ → ℕ → Bool
leb a b = elim (compare a b) [ Ordering.gt ↦ false | _ ↦ true ]

pub ltb→lt : (a b : ℕ) → ltb a b ≡ true → a < b
ltb→lt a b h = ground arith

pub leb→le : (a b : ℕ) → leb a b ≡ true → a ≤ b
leb→le a b h = ground arith

-- To split on a computed value and keep the equation.
pub Bool-cases : (b : Bool) → (b ≡ true) ⊎ (b ≡ false)
Bool-cases true = inl refl
Bool-cases false = inr refl

pub Option-cases {ℓ} : {A : Type ℓ} (o : Option A) → (o ≡ none) ⊎ ((a : A) × (o ≡ some a))
Option-cases none = inl refl
Option-cases (some a) = inr (a, refl)

-- `x is not None`
abbrev pub is_some {ℓ} : {A : Type ℓ} → Option A → Bool
is_some none = false
is_some (some a) = true
