-- ===== src/Tokens/Sequence.antt =====
-- tools/lis_verify/pass1_inputs.py: the selected tokens of a run report, with what the report says
-- of their number and digest. The proofs are in the modules below.
pub mod Coherent
use local_inference_system.Base.{
  ℕ, suc, ◌*◌, String, Bool, true, false, not, ◌&&◌, ◌||◌, Option, none, some, List, [], ◌∷◌, map,
  ◌==◌, ◌!=◌, nat_eq, option_eq, Outcome, ok, err, ◌>>=◌, if◌then◌else◌, length, any, is_some,
}
use local_inference_system.Base.Text.{concat, decimal}
use local_inference_system.Json.Value.{
  Value, null, list, dict, Items, nil, cons, Fields, value_equal,
}
use local_inference_system.Json.Lookup.{first, as_text, as_object, get_value, collect_locations}
use local_inference_system.Tokens.Model.{
  NormalizedDigest, SelectedTokenSequence, SelectedTokenEvidenceLevel, array_exact, digest_only,
  metadata_only, missing,
}
use local_inference_system.Tokens.Errors.{Read, malformed, require_nonnegative_int}
use local_inference_system.Tokens.Reports.{Host, optional_nonnegative_int}
use local_inference_system.Tokens.Digests.{normalize_digest, validate_digest_for_array}

abbrev pub selected_paths : String → List (List String)
selected_paths name = ("report" ∷ name ∷ []) ∷ (name ∷ []) ∷ []

-- Some later location holds another value than the first.
unfoldable pub conflicting : Value → List (String × Value) → Bool
conflicting value [] = false
conflicting value ((location, other) ∷ rest) =
    not (value_equal other value) || conflicting value rest

unfoldable pub single_metadata_value : Fields → List (List String) → String → Read Value
unfolding conflicting
single_metadata_value raw paths label = elim (collect_locations (dict raw) paths) [
  | [] ↦ ok null
  | (location, value) ∷ rest ↦
      if conflicting value rest
      then err (malformed (concat ("conflicting " ∷ label ∷ " locations" ∷ [])))
      else ok value
]

-- The token IDs of an array, from the index on.
unfoldable pub token_ids_from : ℕ → Items → Read (List ℕ)
unfolding require_nonnegative_int
token_ids_from index nil = ok []
token_ids_from index (cons item items) =
    let rest = token_ids_from (suc index) items in
    do
      id ← require_nonnegative_int item (concat ("selected_token_ids[" ∷ decimal index ∷ "]" ∷ []))
      ids ← rest
      ok (id ∷ ids)

unfoldable pub array_ids : Value → Read (List ℕ)
unfolding token_ids_from
array_ids (list items) = token_ids_from 0 items
array_ids _ = err (malformed "selected_token_ids must be an array")

-- The explicit array, if any, and the locations that hold it.
unfoldable pub explicit_array : List (String × Value) → Read (Option (List ℕ) × List String)
unfolding conflicting array_ids
explicit_array [] = ok (none, [])
explicit_array ((location, value) ∷ rest) =
    if conflicting value rest
    then err (malformed "conflicting explicit selected-token arrays")
    else do ids ← array_ids value; ok (some ids, location ∷ map (λ entry. entry.0) rest)

abbrev pub is_null : Value → Bool
is_null null = true
is_null _ = false

-- The evidence level of a report without an array.
unfoldable pub level_without_array : Option ℕ → NormalizedDigest → SelectedTokenEvidenceLevel
level_without_array count digest =
    if is_some count && digest.valid
    then digest_only
    else if is_some count || is_some digest.value
    then metadata_only
    else missing

-- The count and the digest are checked against the array, where there is one.
unfoldable pub checked_evidence :
    Host
    → Option (List ℕ)
    → Option ℕ
    → NormalizedDigest
    → Read (NormalizedDigest × SelectedTokenEvidenceLevel)
unfolding level_without_array
checked_evidence host none count digest = ok (digest, level_without_array count digest)
checked_evidence host (some ids) count digest =
    if is_some count && count != some (length ids)
    then err (malformed "selected_token_count does not match selected_token_ids")
    else do checked ← validate_digest_for_array host digest ids; ok (checked, array_exact)

unfoldable pub declared_count : Fields → Read (Option ℕ)
declared_count raw = do
  value ← single_metadata_value raw (selected_paths "selected_token_count") "selected-token count"
  optional_nonnegative_int value "selected_token_count"

unfoldable pub declared_digest : Fields → Read NormalizedDigest
declared_digest raw = do
  value ← single_metadata_value raw (selected_paths "selected_token_digest") "selected-token digest"
  digest ← normalize_digest value
  if not (is_null value) && not digest.valid
      then err (malformed "selected_token_digest is malformed")
      else ok digest

unfoldable pub generation_limit_of : Fields → Read (Option ℕ)
generation_limit_of raw =
    optional_nonnegative_int
      (first (dict (as_object (get_value "manifest" raw))) (
        ("runtime" ∷ "generation_limit" ∷ [])
        ∷ ("runtime_settings" ∷ "generation_limit" ∷ [])
        ∷ ("runtime_settings" ∷ "generate_limit" ∷ [])
        ∷ []))
      "generation_limit"

unfoldable pub assemble_sequence :
    Host
    → Fields
    → String
    → Option (List ℕ) × List String
    → Option ℕ
    → NormalizedDigest
    → Option ℕ
    → Read SelectedTokenSequence
assemble_sequence host raw role (ids, locations) count digest limit = do
  (checked, level) ← checked_evidence host ids count digest
  ok (record {
    role = role;
    token_ids = ids;
    source_locations = locations;
    declared_count = count;
    digest = checked;
    stop_reason = as_text (get_value "stop_reason" (as_object (get_value "report" raw)));
    generation_limit = limit;
    evidence_level = level;
  })

unfoldable pub extract_selected_token_sequence : Host → Fields → String → Read SelectedTokenSequence
extract_selected_token_sequence host raw role = do
  found ← explicit_array (collect_locations (dict raw) (selected_paths "selected_token_ids"))
  count ← declared_count raw
  digest ← declared_digest raw
  limit ← generation_limit_of raw
  assemble_sequence host raw role found count digest limit
