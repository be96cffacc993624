-- ===== src/Base/Sorting.antt =====
-- `set(xs)` and `sorted(xs, key=…)`, and that sorting a set picks it out of the ascending list of
-- all elements, whatever the order of `xs`.
use mathlib.Core.Path.{◌≡◌, refl, ◌∙◌}
use mathlib.Core.Logic.{inl, inr}
use mathlib.Core.Bool.{Bool, true, false, not, ◌&&◌, ◌||◌}
use mathlib.Core.List.{List, [], ◌∷◌}
use native.Mathlib.Omega.{arith}
use local_inference_system.Base.Equality.{Eq, ◌==◌, ◌!=◌, if◌then◌else◌, Bool-cases}
use local_inference_system.Base.Lists.{contains, keep, keep_ext}

module _ {ℓ} {A : Type ℓ} where
  -- `lt` compares the keys of two elements. An element is put before the first with a key no
  -- smaller, so that `sort_by` is stable.
  unfoldable pub insert_by : (A → A → Bool) → A → List A → List A
  insert_by lt a [] = a ∷ []
  insert_by lt a (x ∷ xs) =
      let later = insert_by lt a xs in if lt x a then x ∷ later else a ∷ x ∷ xs

  unfoldable pub sort_by : (A → A → Bool) → List A → List A
  unfolding insert_by
  sort_by lt [] = []
  sort_by lt (x ∷ xs) = insert_by lt x (sort_by lt xs)

module _ {ℓ} {A : Type ℓ} ⦃e : Eq A⦄ where
  unfoldable pub distinct : List A → List A
  distinct [] = []
  distinct (x ∷ xs) = let rest = distinct xs in if contains x xs then rest else x ∷ rest

  -- Every element of the list comes after `a`.
  unfoldable pub all_after : (A → A → Bool) → A → List A → Bool
  all_after lt a [] = true
  all_after lt a (x ∷ xs) = lt a x && not (lt x a) && x != a && all_after lt a xs

  unfoldable pub ascending : (A → A → Bool) → List A → Bool
  unfolding all_after
  ascending lt [] = true
  ascending lt (x ∷ xs) = all_after lt x xs && ascending lt xs

module _ {ℓ} {A : Type ℓ} ⦃e : Eq A⦄ (lt : A → A → Bool) (p : A → Bool) (a : A) where
  insert_by-front :
      (xs : List A) → all_after lt a xs ≡ true → insert_by lt a (keep p xs) ≡ a ∷ keep p xs
  unfolding all_after insert_by
  insert_by-front [] h = refl
  insert_by-front (x ∷ xs) h = ground (arith, insert_by-front xs)

  keep-after : (xs : List A) → all_after lt a xs ≡ true → keep (λ x. x == a || p x) xs ≡ keep p xs
  unfolding all_after
  keep-after [] h = refl
  keep-after (x ∷ xs) h = ground (arith, keep-after xs)

  after-lt : (x : A) (xs : List A) → all_after lt x xs ≡ true → contains a xs ≡ true → lt x a ≡ true
  unfolding all_after
  after-lt x [] h m = cc
  after-lt x (y ∷ ys) h m = ground (arith, after-lt x ys)

  insert_by-keep :
      (xs : List A)
      → ascending lt xs ≡ true
      → contains a xs ≡ true
      → p a ≡ false
      → insert_by lt a (keep p xs) ≡ keep (λ x. x == a || p x) xs
  unfolding ascending insert_by
  insert_by-keep [] s m n = cc
  insert_by-keep (x ∷ xs) s m n =
      ground (arith, insert_by-keep xs, insert_by-front xs, keep-after xs, after-lt x xs)

module _ {ℓ} {A : Type ℓ} where
  keep-none : (xs : List A) → keep (λ _. false) xs ≡ []
  keep-none [] = refl
  keep-none (x ∷ xs) = keep-none xs

module _ {ℓ} {A : Type ℓ} ⦃e : Eq A⦄ (lt : A → A → Bool) (all : List A) where
  contains_again :
      (x : A) (xs : List A)
      → contains x xs ≡ true
      → (a : A) → contains a xs ≡ (a == x || contains a xs)
  contains_again x xs h a = ground arith

  pub sort_by-distinct :
      (xs : List A)
      → ascending lt all ≡ true
      → ((a : A) → contains a all ≡ true)
      → sort_by lt (distinct xs) ≡ keep (λ a. contains a xs) all
  unfolding sort_by distinct
  sort_by-distinct [] s every = rw (keep-none all)
  sort_by-distinct (x ∷ xs) s every = elim (Bool-cases (contains x xs)) [
    | inl old ↦ rw old (
        sort_by-distinct xs s every
        ∙ keep_ext (λ a. contains a xs) (λ a. a == x || contains a xs) (contains_again x xs old)
            all)
    | inr new ↦
        rw (new, sort_by-distinct xs s every)
          (insert_by-keep lt (λ a. contains a xs) x all s (every x) new)
  ]
