-- ===== src/Tokens/Digests.antt =====
-- tools/lis_verify/pass1_inputs.py: digests of token arrays.
use Prim.Native.Nat.{bit_xor}
use Prim.Native.Char.{code}
use Prim.Native.String.{◌∷◌ as ◌∷ₛ◌}
use local_inference_system.Base.{
  ℕ, zero, suc, ◌+◌, ◌-◌, ◌*◌, ◌/◌, ◌%◌, ◌^◌, String, Bool, true, false, not, ◌&&◌, Option, none,
  some, List, [], ◌∷◌, ◌≡◌, refl, ◌==◌, ◌!=◌, nat_eq, string_eq, bool_eq, option_eq, ok, err, ◌>>=◌,
  if◌then◌else◌, ltb, length, is_some,
}
use local_inference_system.Base.Text.{concat, hex16}
use local_inference_system.Json.Value.{Value, str, dict}
use local_inference_system.Json.Lookup.{as_text, get_value}
use local_inference_system.Tokens.Model.{NormalizedDigest}
use local_inference_system.Tokens.Errors.{Read, malformed}
use local_inference_system.Tokens.Reports.{Host, token_ids_sha256, optional_nonnegative_int}

-- `value.partition(":")` where the separator is found: the parts before and behind the first colon.
unfoldable pub partition_colon : String → Option (String × String)
partition_colon String.[] = none
partition_colon (String.◌∷◌ c s) =
    let rest = partition_colon s in
    elim (code c == 58) [
      | true ↦ some ("", s)
      | false ↦ elim rest [ none ↦ none | some (before, after) ↦ some (c ∷ₛ before, after) ]
    ]

abbrev pub no_digest : Option ℕ → NormalizedDigest
no_digest size = record {
  algorithm = none;
  value = none;
  size_bytes = size;
  valid = false;
  matches_array = none;
}

abbrev pub digest_of : String → String → Option ℕ → NormalizedDigest
digest_of algorithm value size = record {
  algorithm = some algorithm;
  value = some value;
  size_bytes = size;
  valid = true;
  matches_array = none;
}

unfoldable pub digest_of_text : String → NormalizedDigest
unfolding partition_colon
digest_of_text value = elim (partition_colon value) [
  | none ↦ no_digest none
  | some (algorithm, payload) ↦
      if algorithm != "" && payload != "" then digest_of algorithm value none else no_digest none
]

-- The digest of an object whose algorithm and payload are texts.
unfoldable pub digest_of_parts : Option String → Option String → Option ℕ → NormalizedDigest
digest_of_parts (some algorithm) (some payload) size =
    if algorithm != "" && payload != ""
    then digest_of algorithm (concat (algorithm ∷ ":" ∷ payload ∷ [])) size
    else no_digest size
digest_of_parts _ _ size = no_digest size

unfoldable pub normalize_digest : Value → Read NormalizedDigest
unfolding digest_of_text digest_of_parts
normalize_digest (str value) = ok (digest_of_text value)
normalize_digest (dict fields) = do
  size ← optional_nonnegative_int (get_value "size_bytes" fields) "selected_token_digest.size_bytes"
  ok (
      digest_of_parts (as_text (get_value "algorithm" fields)) (as_text (get_value "hex" fields))
        size)
normalize_digest _ = ok (no_digest none)

abbrev prime : ℕ
prime = 1099511628211

-- One byte: `state ^= byte; state = (state * prime) & mask`.
fnv_byte : ℕ → ℕ → ℕ
fnv_byte state byte = bit_xor state byte * prime % 2 ^ 64

-- The loop over `shift in range(0, 64, 8)`, from the byte at `shift`.
fnv_bytes : ℕ → ℕ → ℕ → ℕ → ℕ
unfolding fnv_byte
fnv_bytes zero shift value state = state
fnv_bytes (suc rounds) shift value state =
    fnv_bytes rounds (shift + 8) value (fnv_byte state (value / 2 ^ shift % 256))

fnv_values : List ℕ → ℕ → Read ℕ
unfolding fnv_bytes
fnv_values [] state = ok state
fnv_values (value ∷ values) state =
    let rest = fnv_values values (fnv_bytes 8 0 value state) in
    if ltb (2 ^ 64 - 1) value
    then err (malformed "selected token ID exceeds uint64 range")
    else rest

unfoldable pub fnv1a64_token_ids : List ℕ → Read String
unfolding fnv_values
fnv1a64_token_ids ids = do
  state ← fnv_values (length ids ∷ ids) 14695981039346656037
  ok (concat ("fnv1a64:" ∷ hex16 state ∷ []))

-- The digest that the array should have, for the algorithms that Pass 1 computes.
unfoldable pub expected_digest : Host → Option String → List ℕ → Read (Option String)
expected_digest host algorithm ids =
    if algorithm == some "fnv1a64"
    then (do d ← fnv1a64_token_ids ids; ok (some d))
    else if algorithm == some "sha256"
    then ok (some (token_ids_sha256 host ids))
    else ok none

-- `expected == digest.value`, unknown where nothing is expected
unfoldable pub matches : Option String → Option String → Option Bool
matches none value = none
matches (some expected) value = some (some expected == value)

unfoldable pub validate_digest_for_array : Host → NormalizedDigest → List ℕ → Read NormalizedDigest
unfolding matches
validate_digest_for_array host digest ids = if not digest.valid then ok digest else do
  expected ← expected_digest host digest.algorithm ids
  if matches expected digest.value == some false
      then err (malformed "selected-token array contradicts selected-token digest")
      else if is_some digest.size_bytes && digest.size_bytes != some (length ids * 8)
      then err (malformed "selected-token digest size contradicts selected-token array")
      else ok (record digest { matches_array = matches expected digest.value })

fnv_test : fnv1a64_token_ids (1 ∷ 2 ∷ 3 ∷ []) ≡ ok "fnv1a64:b981081392b03a26"
unfolding fnv1a64_token_ids hex16
fnv_test = refl
