-- ===== src/Replay/Forced/Metadata.antt =====
-- Metadata that are accepted and equal the expected ones force the expected prefix.
use local_inference_system.Base.{
  ℕ, String, true, Option, none, some, List, ◌≡◌, refl, arith, inl, inr, Option-cases, nat_eq,
  string_eq, option_eq, length, ok, >>=-eq-ok,
}
use local_inference_system.Json.Number.{pos}
use local_inference_system.Json.Value.{Value, int, str, dict, Fields, get, value_equal}
use local_inference_system.Json.Lookup.{get_value, as_text}
use local_inference_system.Json.Equal.{dict_equal-get, value_equal-pos, value_equal-str}
use local_inference_system.Tokens.Reports.{Host}
use local_inference_system.Product.Contract.{require_sha256}
use local_inference_system.Product.ForcedPrefix.{
  validate_forced_prefix_metadata, ForcedPrefix, forced_steps, require_digests, require_exact_keys,
  require_int, forced_prefix_digests,
}
use local_inference_system.Replay.Compare.Sound.{IsForced}

require_int-eq :
    (v : Value) (label : String) (maximum : Option ℕ) (n : ℕ)
    → require_int v label maximum ≡ ok n
    → v ≡ int (pos n)
unfolding require_int
require_int-eq (int (pos k)) label none n h = ground arith
require_int-eq (int (pos k)) label (some maximum) n h = ground arith
require_int-eq v label maximum n h = absurd (ground arith)

forced_steps-eq :
    (fields : Fields) (read : ForcedPrefix)
    → forced_steps fields ≡ ok read
    → (get_value "token_count" fields ≡ int (pos read.token_count))
      × (read.token_ids_sha256 ≡ as_text (get_value "token_ids_sha256" fields))
unfolding forced_steps
forced_steps-eq fields read h =
    let (count, counted, rest) =
      >>=-eq-ok (require_int (get_value "token_count" fields) "forced_prefix.token_count" (some 64))
        _ h in
    let held : get_value "token_count" fields ≡ int (pos count) =
      require_int-eq _ _ _ count counted in
    let counts : read.token_count ≡ count = ground (arith, rest) in
    (ground (arith, held, counts), ground (arith, rest))

get-int :
    (key : String) (fields : Fields) (n : ℕ)
    → get_value key fields ≡ int (pos n)
    → get key fields ≡ some (int (pos n))
get-int key fields n h = elim (Option-cases (get key fields)) [
  | inl missing ↦ absurd (ground (arith, h, missing))
  | inr (v, found) ↦ ground (arith, h, found)
]

as_text-eq : (v : Value) (s : String) → as_text v ≡ some s → v ≡ str s
as_text-eq (str t) s h = ground (arith, h)
as_text-eq v s h = absurd (ground (arith, h))

get-str :
    (key : String) (fields : Fields) (s : String)
    → as_text (get_value key fields) ≡ some s
    → get key fields ≡ some (str s)
get-str key fields s h = elim (Option-cases (get key fields)) [
  | inl missing ↦ absurd (ground (arith, h, missing))
  | inr (v, found) ↦
      let text : v ≡ str s = as_text-eq v s (ground (arith, h, found)) in
      ground (arith, found, text)
]

digest-read :
    (fields : Fields)
    → require_digests fields forced_prefix_digests ≡ ok tt
    → (digest : String) × (as_text (get_value "token_ids_sha256" fields) ≡ some digest)
unfolding require_digests require_sha256
digest-read fields h = elim (Option-cases (as_text (get_value "token_ids_sha256" fields))) [
  | inl missing ↦ absurd (ground (arith, h, missing))
  | inr found ↦ found
]

-- Metadata that are accepted are an object, with the count and the digest that are read.
metadata-fields :
    (host : Host) (raw : Value) (read : ForcedPrefix)
    → validate_forced_prefix_metadata host raw ≡ ok read
    → (fields : Fields) × (raw ≡ dict fields)
      × (get "token_count" fields ≡ some (int (pos read.token_count)))
      × ((digest : String) × (get "token_ids_sha256" fields ≡ some (str digest))
          × (read.token_ids_sha256 ≡ some digest))
unfolding validate_forced_prefix_metadata require_exact_keys
metadata-fields host (dict fields) read h =
    let steps : forced_steps fields ≡ ok read = ground (arith, h) in
    let digests : require_digests fields forced_prefix_digests ≡ ok tt = ground (arith, h) in
    let (counted, texts) = forced_steps-eq fields read steps in
    let (digest, found) = digest-read fields digests in
    (
      fields,
      refl,
      get-int "token_count" fields read.token_count counted,
      (digest, get-str "token_ids_sha256" fields digest found, ground (arith, texts, found)),
    )
metadata-fields host raw read h = absurd (ground (arith, h))

-- Accepted metadata that equal the expected ones force their prefix.
pub equal-IsForced :
    (host : Host) (expected : List ℕ) (sha256 : String) (raw : Value) (read : ForcedPrefix)
    (fields : Fields)
    → validate_forced_prefix_metadata host raw ≡ ok read
    → value_equal raw (dict fields) ≡ true
    → get "token_count" fields ≡ some (int (pos (length expected)))
    → get "token_ids_sha256" fields ≡ some (str sha256)
    → IsForced host expected sha256 raw
equal-IsForced host expected sha256 raw read fields valid equal count_is digest_is =
    let (given, shape, counted, (digest, kept, digest_read)) =
      metadata-fields host raw read valid in
    let same : value_equal (dict given) (dict fields) ≡ true = rw shape at equal in
    let (w, found, w_equal) = dict_equal-get "token_count" given fields same counted in
    let (u, u_found, u_equal) = dict_equal-get "token_ids_sha256" given fields same kept in
    let w_is : w ≡ int (pos (length expected)) = ground (arith, found, count_is) in
    let u_is : u ≡ str sha256 = ground (arith, u_found, digest_is) in
    record {
      forced = read;
      valid = valid;
      count = value_equal-pos read.token_count (length expected) (rw w_is at w_equal);
      digest =
          let same_text = value_equal-str digest sha256 (rw u_is at u_equal) in
          ground (arith, digest_read, same_text);
    }
