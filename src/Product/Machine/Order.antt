-- ===== src/Product/Machine/Order.antt =====
-- Facts of stage results in canonical order: a result that is added has a new name.
use local_inference_system.Base.{
  ℕ, zero, suc, String, Bool, true, false, ◌&&◌, not, none, some, List, [], ◌∷◌, ◌++◌, map, ◌≡◌,
  refl, arith, ◌==◌, Eq, string_eq, option_eq, if◌then◌else◌, contains, get_elem?, take,
  String_discrete,
}
use local_inference_system.Product.Model.{StageResult, stage_state_eq}
use local_inference_system.Product.Contract.{state_of, all_executed, canonical_stages}
use local_inference_system.Product.Machine.{name_of}

pub take-next {ℓ} :
    {A : Type ℓ} (xs : List A) (i : ℕ) {a : A}
    → get_elem? xs i ≡ some a
    → (take i xs ++ (a ∷ [])) ≡ take (suc i) xs
take-next [] i h = cc
take-next (x ∷ xs) zero h = ground arith
take-next (x ∷ xs) (suc i) h = ground (arith, take-next xs i h)

module _ {ℓ} {A : Type ℓ} ⦃e : Eq A⦄ where
  abbrev pub no_repeats : List A → Bool
  no_repeats [] = true
  no_repeats (x ∷ xs) = not (contains x xs) && no_repeats xs

  contains-get_elem? :
      (xs : List A) (i : ℕ) {a : A} → get_elem? xs i ≡ some a → contains a xs ≡ true
  contains-get_elem? [] i h = cc
  contains-get_elem? (x ∷ xs) zero h = ground arith
  contains-get_elem? (x ∷ xs) (suc i) h = ground (arith, contains-get_elem? xs i h)

  pub contains-take :
      (xs : List A) (i : ℕ) {a : A}
      → no_repeats xs ≡ true
      → get_elem? xs i ≡ some a
      → contains a (take i xs) ≡ false
  contains-take xs zero n h = refl
  contains-take [] (suc i) n h = refl
  contains-take (x ∷ xs) (suc i) {a} n h =
      let fresh = contains-take xs i (ground arith) h in
      let later = contains-get_elem? xs i h in ground (arith, fresh, later)

pub canonical_stages-no_repeats : no_repeats canonical_stages ≡ true
unfolding String_discrete
canonical_stages-no_repeats = refl

pub state_of-append :
    (rs : List StageResult) (r : StageResult) (name : String)
    → state_of (rs ++ (r ∷ [])) name ≡ (if r.name == name then some r.state else state_of rs name)
unfolding state_of
state_of-append [] r name = refl
state_of-append (x ∷ rs) r name = ground (arith, state_of-append rs r name)

pub state_of-none :
    (rs : List StageResult) (name : String)
    → contains name (map name_of rs) ≡ false
    → state_of rs name ≡ none
unfolding state_of
state_of-none [] name h = refl
state_of-none (x ∷ rs) name h = ground (arith, state_of-none rs name)

pub all_executed-append :
    (rs : List StageResult) (r : StageResult) (ds : List String)
    → state_of rs r.name ≡ none
    → all_executed rs ds ≡ true
    → all_executed (rs ++ (r ∷ [])) ds ≡ true
unfolding all_executed
all_executed-append rs r [] fresh h = refl
all_executed-append rs r (d ∷ ds) fresh h =
    ground (arith, all_executed-append rs r ds, state_of-append rs r d)
