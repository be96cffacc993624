-- ===== src/Json/Number.antt =====
-- The numbers of a JSON value: Python's integers, and finite binary floats, which are exact
-- fractions with a power of two below the line. The readers reject NaN and the infinities, and no
-- float here is one.
use Prim.Native.Nat.{pred}
use local_inference_system.Base.{
  ℕ, suc, ◌*◌, ◌^◌, Bool, true, false, ◌≡◌, refl, arith, ◌==◌, nat_eq, Nat_discrete,
}

-- `negsuc n` is -(n + 1).
pub data ℤ : Type 0 where
  pos : ℕ → ℤ
  negsuc : ℕ → ℤ

pub ℤ-discrete : Discrete ℤ
ℤ-discrete = hlevel Nat_discrete

-- `finite m k` is m / 2 ^ k.
pub data Float : Type 0 where
  finite : ℤ → ℕ → Float

pub Float-discrete : Discrete Float
Float-discrete = hlevel (ℤ-discrete, Nat_discrete)

-- z * p, for p above 0
scale : ℤ → ℕ → ℤ
scale (pos n) p = pos (n * p)
scale (negsuc n) p = negsuc (pred (suc n * p))

same_integer : ℤ → ℤ → Bool
same_integer (pos m) (pos n) = m == n
same_integer (negsuc m) (negsuc n) = m == n
same_integer _ _ = false

-- Equality of the two values, which is exact.
unfoldable pub float_equal : Float → Float → Bool
unfolding scale same_integer Nat_discrete
float_equal (finite m j) (finite n k) = same_integer (scale m (2 ^ k)) (scale n (2 ^ j))

pub float_equal_refl : (m : ℤ) (k : ℕ) → float_equal (finite m k) (finite m k) ≡ true
unfolding float_equal
float_equal_refl (pos m) k = ground arith
float_equal_refl (negsuc m) k = ground arith

pub float_equal-pos : (m n : ℕ) → float_equal (finite (pos m) 0) (finite (pos n) 0) ≡ true → m ≡ n
unfolding float_equal
float_equal-pos m n h = ground (arith, h)

float_equal_test : float_equal (finite (pos 3) 1) (finite (pos 6) 2) ≡ true
unfolding float_equal
float_equal_test = refl
