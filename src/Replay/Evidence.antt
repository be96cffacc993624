-- ===== src/Replay/Evidence.antt =====
-- tools/lis_verify/pass2_inputs.py: the evidence that Pass 2 reads from one run report, and the
-- binding of the original reports. `Pass2InputError` is its text.
pub mod Sound
use local_inference_system.Base.{
  ℕ, zero, suc, String, Bool, true, false, not, ◌&&◌, ◌||◌, Option, none, some, List, ◌==◌, ◌!=◌,
  [], ◌∷◌, string_eq, option_eq, is_some, if◌then◌else◌, Outcome, ok, err, ◌>>=◌, ◌>>◌, require,
}
use local_inference_system.Base.Text.{concat}
use local_inference_system.Json.Number.{pos}
use local_inference_system.Json.Value.{Value, null, int, str, list, dict, Items, nil, cons, Fields}
use local_inference_system.Json.Lookup.{get_value, as_text}
use local_inference_system.Tokens.Model.{RunReportIdentity, Pass1Result}
use local_inference_system.Tokens.Reports.{Host, CanonicalRunReport, report_objects}
use local_inference_system.Tokens.Errors.{message}
use local_inference_system.Tokens.Gate.{is_ok}
use local_inference_system.Tokens.Sequence.{extract_selected_token_sequence}

pub record RunEvidence : Type 0 where
  pub role : String
  pub identity : RunReportIdentity
  pub binary_fingerprint : String
  pub runtime_fingerprint : Option String
  pub configured_context : Option ℕ
  pub prompt_token_count : ℕ
  pub batch_size : ℕ
  pub thread_count : ℕ
  pub raw : Fields

-- A text that is not empty.
abbrev pub nonempty_text : Value → Option String
nonempty_text (str s) = if s == "" then none else some s
nonempty_text _ = none

unfoldable pub fingerprint : Value → Option String
fingerprint (str s) = if s == "" then none else some s
fingerprint (dict fields) = elim (nonempty_text (get_value "algorithm" fields)) [
  | none ↦ none
  | some algorithm ↦ elim (nonempty_text (get_value "hex" fields)) [
    | none ↦ none
    | some payload ↦ some (concat (algorithm ∷ ":" ∷ payload ∷ []))
  ]
]
fingerprint _ = none

abbrev pub Read : Type 0 → Type 0
Read A = Outcome String A

-- The error with the label in front.
unfoldable pub fault : {A : Type 0} → String → String → Read A
fault label text = err (concat (label ∷ text ∷ []))

unfoldable pub positive_int : Value → String → Read ℕ
unfolding fault
positive_int (int (pos (suc n))) label = ok (suc n)
positive_int value label = fault label " must be a positive integer"

unfoldable pub nonnegative_int : Value → String → Read ℕ
unfolding fault
nonnegative_int (int (pos n)) label = ok n
nonnegative_int value label = fault label " must be a non-negative integer"

unfoldable pub required : {A : Type 0} → Option A → String → String → Read A
unfolding fault
required (some a) role text = ok a
required none role text = fault role text

-- `str(body.get("execution_status", "")).lower() == "ok"`; no other value than a text is written
-- in that way.
unfoldable pub executed : Fields → Bool
executed body = elim (as_text (get_value "execution_status" body)) [
  | none ↦ false
  | some status ↦ is_ok status
]

-- The binary's and the runtime's manifest, if both are objects.
unfoldable pub part_objects : Fields → Option (Fields × Fields)
part_objects manifest = elim (get_value "binary" manifest) [
  | dict binary ↦ elim (get_value "runtime" manifest) [
    | dict runtime ↦ some (binary, runtime)
    | _ ↦ none
  ]
  | _ ↦ none
]

-- `body["prompt_sequences"][0]`, if it is an object.
unfoldable pub first_prompt : Value → Option Fields
first_prompt (list (cons (dict prompt) rest)) = some prompt
first_prompt _ = none

unfoldable pub optional_positive_int : Value → String → Read (Option ℕ)
optional_positive_int null label = ok none
optional_positive_int value label = do n ← positive_int value label; ok (some n)

unfoldable pub has_identities : RunReportIdentity → Bool
has_identities identity =
    is_some identity.model_fingerprint
    && is_some identity.config_fingerprint
    && is_some identity.input_fingerprint

-- The reading of the runtime's manifest and of the first prompt, up to the result.
unfoldable pub runtime_evidence :
    CanonicalRunReport → String → String → Fields → Fields → Read RunEvidence
runtime_evidence report role binary_fingerprint runtime prompt = do
  prompt_token_count ←
      nonnegative_int (get_value "token_count" prompt) (concat (role ∷ ": prompt token count" ∷ []))
  batch_size ← positive_int (get_value "batch_size" runtime) (concat (role ∷ ": batch size" ∷ []))
  thread_count ←
      positive_int (get_value "thread_count" runtime) (concat (role ∷ ": thread count" ∷ []))
  configured_context ←
      optional_positive_int (get_value "configured_context" runtime)
        (concat (role ∷ ": configured context" ∷ []))
  require (has_identities report.identity)
      (concat (role ∷ ": model/config/input fingerprints are required" ∷ []))
  ok (record {
    role = role;
    identity = report.identity;
    binary_fingerprint = binary_fingerprint;
    runtime_fingerprint = fingerprint (get_value "fingerprint" runtime);
    configured_context = configured_context;
    prompt_token_count = prompt_token_count;
    batch_size = batch_size;
    thread_count = thread_count;
    raw = report.materialize;
  })

-- The root is an object here, so the code's test for that is left out.
unfoldable pub extract_run_evidence : CanonicalRunReport → String → Read RunEvidence
extract_run_evidence report role = do
  require (as_text (get_value "schema" report.materialize) == some "lis.execution_artifact/v1")
      (concat (role ∷ ": unsupported run-report schema" ∷ []))
  require (as_text (get_value "kind" report.materialize) == some "run_report")
      (concat (role ∷ ": unsupported run-report kind" ∷ []))
  objects ←
      required (report_objects report.materialize) role
        ": run report requires manifest and report objects"
  require (executed objects.1) (concat (role ∷ ": execution_status must be ok" ∷ []))
  parts ← required (part_objects objects.0) role ": binary and runtime manifests are required"
  binary_fingerprint ←
      required (fingerprint (get_value "fingerprint" parts.0)) role
        ": manifest.binary.fingerprint is required"
  prompt ←
      required (first_prompt (get_value "prompt_sequences" objects.1)) role
        ": report.prompt_sequences[0] is required"
  runtime_evidence report role binary_fingerprint parts.1 prompt

unfoldable pub reproduction_identity_matches : CanonicalRunReport → RunEvidence → Bool
reproduction_identity_matches reproduction original =
    reproduction.identity.model_fingerprint == original.identity.model_fingerprint
    && reproduction.identity.config_fingerprint == original.identity.config_fingerprint
    && reproduction.identity.input_fingerprint == original.identity.input_fingerprint

-- `report_sha256(…)`: the empty text is none.
unfoldable pub report_sha256 : CanonicalRunReport → Option String
report_sha256 report =
    if report.identity.run_report_sha256 == "" then none else some report.identity.run_report_sha256

unfoldable pub original_binding_matches :
    Pass1Result → CanonicalRunReport → CanonicalRunReport → Bool × Bool
original_binding_matches pass1 reference candidate =
    if not pass1.source_binding_verified then (false, false) else (
      report_sha256 reference == some pass1.source_binding.reference.run_report_sha256,
      report_sha256 candidate == some pass1.source_binding.candidate.run_report_sha256,
    )

unfoldable pub selected_tokens : Host → RunEvidence → Read (Option (List ℕ))
selected_tokens host evidence =
    elim (extract_selected_token_sequence host evidence.raw evidence.role) [
      | ok sequence ↦ ok sequence.token_ids
      | err e ↦ err (concat (evidence.role ∷ ": " ∷ message e ∷ []))
    ]
