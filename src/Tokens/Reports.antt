-- ===== src/Tokens/Reports.antt =====
-- tools/lis_verify/pass1_inputs.py: run reports, their identities and their metadata. What the
-- program takes from the hash library and from Python's float printing is the parameter `Host`.
use local_inference_system.Base.{
  ℕ, String, Option, none, some, List, [], ◌∷◌, ◌==◌, ◌!=◌, string_eq, option_eq, ok, err, ◌>>=◌,
  if◌then◌else◌,
}
use local_inference_system.Base.Text.{concat}
use local_inference_system.Json.Number.{Float, pos}
use local_inference_system.Json.Value.{Value, null, int, str, list, dict, Items, nil, cons, Fields}
use local_inference_system.Json.Lookup.{first, as_text, as_object, get_value}
use local_inference_system.Json.Render.{canonical_json}
use local_inference_system.Tokens.Model.{
  RunReportIdentity, Pass0SourceBinding, RunReportMetadata, unsupported_run_artifact,
}
use local_inference_system.Tokens.Errors.{Read, unsupported, require_nonnegative_int}

pub record Host : Type 0 where
  pub sha256_hex : String → String  -- `hashlib.sha256(text.encode("utf-8")).hexdigest()`
  pub float_repr : Float → String  -- what `json.dumps` writes for a float

unfoldable pub sha256_text : Host → String → String
sha256_text host text = concat ("sha256:" ∷ host.sha256_hex text ∷ [])

unfoldable pub canonical_json_sha256 : Host → Value → String
unfolding sha256_text
canonical_json_sha256 host value = sha256_text host (canonical_json host.float_repr value)

pub token_items : List ℕ → Items
token_items [] = nil
token_items (n ∷ ns) = cons (int (pos n)) (token_items ns)

unfoldable pub token_ids_sha256 : Host → List ℕ → String
unfolding canonical_json_sha256 token_items
token_ids_sha256 host ids = canonical_json_sha256 host (list (token_items ids))

unfoldable pub normal_fingerprint : Value → Option String
normal_fingerprint (str s) = if s == "" then none else some s
normal_fingerprint (dict fields) = elim (as_text (get_value "algorithm" fields)) [
  | none ↦ none
  | some algorithm ↦ elim (as_text (get_value "hex" fields)) [
    | none ↦ none
    | some hex ↦ some (concat (algorithm ∷ ":" ∷ hex ∷ []))
  ]
]
normal_fingerprint _ = none

-- A fingerprint at `manifest.<part>.fingerprint` or `manifest.<part>_fingerprint`.
fingerprint_at : Fields → String → String → Option String
fingerprint_at manifest part flat =
    normal_fingerprint (first (dict manifest) ((part ∷ "fingerprint" ∷ []) ∷ (flat ∷ []) ∷ []))

unfoldable pub identity_from_object : Fields → String → RunReportIdentity
unfolding fingerprint_at
identity_from_object raw digest =
    let manifest = as_object (get_value "manifest" raw) in
    record {
      run_report_sha256 = digest;
      schema = as_text (get_value "schema" raw);
      kind = as_text (get_value "kind" raw);
      model_fingerprint = fingerprint_at manifest "model" "model_fingerprint";
      config_fingerprint = fingerprint_at manifest "config" "config_fingerprint";
      input_fingerprint = fingerprint_at manifest "input" "input_fingerprint";
    }

-- `canonical_text` is kept as the object that it renders, so `materialize` is a field.
pub record CanonicalRunReport : Type 0 where
  pub identity : RunReportIdentity
  pub materialize : Fields

unfoldable pub from_object : Host → Fields → CanonicalRunReport
from_object host raw = record {
  identity = identity_from_object raw (canonical_json_sha256 host (dict raw));
  materialize = raw;
}

unfoldable pub build_source_binding : CanonicalRunReport → CanonicalRunReport → Pass0SourceBinding
build_source_binding reference candidate = record {
  reference = reference.identity;
  candidate = candidate.identity;
}

-- The manifest and the report, if both are objects.
unfoldable pub report_objects : Fields → Option (Fields × Fields)
report_objects raw = elim (get_value "manifest" raw) [
  | dict manifest ↦ elim (get_value "report" raw) [
    | dict report ↦ some (manifest, report)
    | _ ↦ none
  ]
  | _ ↦ none
]

-- `None` stays `None`, and a value must be a non-negative integer.
unfoldable pub optional_nonnegative_int : Value → String → Read (Option ℕ)
unfolding require_nonnegative_int
optional_nonnegative_int null label = ok none
optional_nonnegative_int value label = do n ← require_nonnegative_int value label; ok (some n)

unfoldable pub extract_run_metadata : Fields → RunReportIdentity → String → Read RunReportMetadata
unfolding report_objects optional_nonnegative_int
extract_run_metadata raw identity role =
    let schema = as_text (get_value "schema" raw) in
    let kind = as_text (get_value "kind" raw) in
    if schema != some "lis.execution_artifact/v1"
    then err (unsupported "unsupported or missing run-report schema" unsupported_run_artifact)
    else if kind != some "run_report"
    then err (unsupported "unsupported or missing run-report kind" unsupported_run_artifact)
    else elim (report_objects raw) [
      | none ↦
          err
            (unsupported "run report requires manifest and report objects" unsupported_run_artifact)
      | some (manifest, report) ↦ do
        batch_size ←
            optional_nonnegative_int
              (first (dict manifest) (
                ("runtime" ∷ "batch_size" ∷ [])
                ∷ ("runtime_settings" ∷ "batch_size" ∷ [])
                ∷ ("runtime_settings" ∷ "batch" ∷ [])
                ∷ []))
              "batch_size"
        ok (record {
          role = role;
          schema = schema;
          kind = kind;
          execution_status = as_text (get_value "execution_status" report);
          model_family =
              as_text
                (first (dict manifest) (("model" ∷ "family" ∷ []) ∷ ("model_family" ∷ []) ∷ []));
          model_fingerprint = identity.model_fingerprint;
          config_fingerprint = identity.config_fingerprint;
          input_fingerprint = identity.input_fingerprint;
          batch_size = batch_size;
        })
    ]
