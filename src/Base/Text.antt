-- ===== src/Base/Text.antt =====
-- Texts that the program formats: joined parts, decimal and zero-padded hexadecimal numbers.
use Prim.Native.String
use mathlib.Core.Bool.{true, false}
use local_inference_system.Base.Equality.{◌==◌, nat_eq, Nat_discrete}
use Prim.Native.String.{String}
use mathlib.Core.Path.{◌≡◌, refl}
use Prim.Native.Nat.{ℕ, zero, suc, ◌+◌, ◌/◌, ◌%◌}
use mathlib.Core.List.{List, [], ◌∷◌}

-- `"".join(parts)`
abbrev pub concat : List String → String
concat [] = ""
concat (s ∷ ss) = String.◌++◌ s (concat ss)

digit : ℕ → String
digit d = String.slice "0123456789abcdef" d (d + 1)

-- The number has at most as many digits as the first argument says.
decimal_digits : ℕ → ℕ → String → String
decimal_digits zero n rest = rest
decimal_digits (suc fuel) n rest =
    let text = concat (digit (n % 10) ∷ rest ∷ []) in
    elim (n / 10 == 0) [ true ↦ text | false ↦ decimal_digits fuel (n / 10) text ]

-- `str(n)`
unfoldable pub decimal : ℕ → String
unfolding digit decimal_digits Nat_discrete
decimal n = decimal_digits (suc n) n ""

hex_digits : ℕ → ℕ → String → String
hex_digits zero n rest = rest
hex_digits (suc width) n rest = hex_digits width (n / 16) (concat (digit (n % 16) ∷ rest ∷ []))

-- `f"{n:016x}"` for `n` below `2 ** 64`
unfoldable pub hex16 : ℕ → String
unfolding digit hex_digits
hex16 n = hex_digits 16 n ""

-- `f"{n:02x}"` for `n` below 256
unfoldable pub hex2 : ℕ → String
unfolding digit hex_digits
hex2 n = hex_digits 2 n ""

decimal_test : decimal 20480 ≡ "20480"
unfolding decimal
decimal_test = refl

hex16_test : hex16 48879 ≡ "000000000000beef"
unfolding hex16
hex16_test = refl
