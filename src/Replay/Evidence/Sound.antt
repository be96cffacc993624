-- ===== src/Replay/Evidence/Sound.antt =====
-- What the evidence says of the report, and that Pass 1 reads the same from it.
use local_inference_system.Base.{
  ℕ, String, true, ◌≤◌, ◌≡◌, refl, arith, Option, none, some, List, [], ◌∷◌, ◌==◌, string_eq,
  option_eq, ok, >>=-eq-ok, require, require-eq-ok, sym, ◌∙◌, Option-discrete, String_discrete, ◌≢◌,
  Option-cases, inl, inr,
}
use local_inference_system.Base.Text.{concat}
use local_inference_system.Json.Number.{pos}
use local_inference_system.Json.Value.{Value, null, int, dict, Fields, get}
use local_inference_system.Json.Lookup.{get_value, as_text, first, at}
use local_inference_system.Tokens.Model.{RunReportIdentity, RunReportMetadata}
use local_inference_system.Tokens.Reports.{
  CanonicalRunReport, report_objects, extract_run_metadata, optional_nonnegative_int,
}
use local_inference_system.Tokens.Gate.{is_ok}
use local_inference_system.Tokens.Errors.{require_nonnegative_int}
use local_inference_system.Replay.Evidence.{
  RunEvidence, positive_int, nonnegative_int, required, executed, part_objects, first_prompt,
  optional_positive_int, has_identities, runtime_evidence, extract_run_evidence, fingerprint, fault,
}

positive_int-ok :
    (v : Value) (label : String) {n : ℕ} → positive_int v label ≡ ok n → (v ≡ int (pos n)) × (1 ≤ n)
unfolding positive_int fault
positive_int-ok v label h = ground arith

optional_positive_int-ok :
    (v : Value) (label : String) {c : Option ℕ} {n : ℕ}
    → optional_positive_int v label ≡ ok c
    → c ≡ some n
    → 1 ≤ n
unfolding optional_positive_int
optional_positive_int-ok null label h e = absurd (ground arith)
optional_positive_int-ok v label h e =
    let (n, read, returned) = >>=-eq-ok (positive_int v label) _ h in
    ground (arith, positive_int-ok v label read)

required-ok :
    {A : Type 0} (o : Option A) (role text : String) {a : A}
    → required o role text ≡ ok a
    → o ≡ some a
unfolding required fault
required-ok (some a) role text h = ground arith
required-ok none role text h = absurd (ground arith)

-- What every evidence holds of its report.
pub record IsEvidence (report : CanonicalRunReport) (role : String) (e : RunEvidence) : Type 0 where
  pub identity : e.identity ≡ report.identity
  pub raw : e.raw ≡ report.materialize
  pub identities : has_identities e.identity ≡ true
  pub batch : 1 ≤ e.batch_size
  pub threads : 1 ≤ e.thread_count
  pub context : {n : ℕ} → e.configured_context ≡ some n → 1 ≤ n

record RuntimeRead (report : CanonicalRunReport) (role : String) (runtime : Fields)
    (e : RunEvidence) : Type 0 where
  pub holds : IsEvidence report role e
  pub at_runtime : get_value "batch_size" runtime ≡ int (pos e.batch_size)

runtime_evidence-RuntimeRead :
    (report : CanonicalRunReport) (role binary : String) (runtime prompt : Fields) {e : RunEvidence}
    → runtime_evidence report role binary runtime prompt ≡ ok e
    → RuntimeRead report role runtime e
unfolding runtime_evidence
runtime_evidence-RuntimeRead report role binary runtime prompt {e} h =
    let label : String → String = λ text. concat (role ∷ text ∷ []) in
    let (count, _, h1) =
      >>=-eq-ok (nonnegative_int (get_value "token_count" prompt) (label ": prompt token count")) _
        h in
    let (batch, read_batch, h2) =
      >>=-eq-ok (positive_int (get_value "batch_size" runtime) (label ": batch size")) _ h1 in
    let (threads, read_threads, h3) =
      >>=-eq-ok (positive_int (get_value "thread_count" runtime) (label ": thread count")) _ h2 in
    let (context, read_context, h4) =
      >>=-eq-ok
        (optional_positive_int (get_value "configured_context" runtime)
          (label ": configured context"))
        _ h3 in
    let (_, complete, h5) =
      >>=-eq-ok
        (require (has_identities report.identity)
          (label ": model/config/input fingerprints are required"))
        _ h4 in
    let (at_runtime, positive) = positive_int-ok _ _ read_batch in
    let e_batch : batch ≡ e.batch_size = ground (arith, h5) in
    let e_context : context ≡ e.configured_context = ground (arith, h5) in
    record {
      holds = record {
        identity = ground (arith, h5);
        raw = ground (arith, h5);
        identities = ground (arith, h5, require-eq-ok _ _ complete);
        batch = ground (arith, h5, positive);
        threads = ground (arith, h5, positive_int-ok _ _ read_threads);
        context = λ same. optional_positive_int-ok _ _ read_context (rw e_context same);
      };
      at_runtime = rw (sym e_batch) at_runtime;
    }

get_value-some :
    (key : String) (fields : Fields) {v : Value}
    → get_value key fields ≡ v
    → v ≢ null
    → get key fields ≡ some v
get_value-some key fields h present = elim (Option-cases (get key fields)) [
  | inl missing ↦ absurd (present (ground (arith, h, missing)))
  | inr (w, found) ↦ ground (arith, h, found)
]

part_objects-runtime :
    (manifest : Fields) {parts : Fields × Fields}
    → part_objects manifest ≡ some parts
    → get_value "runtime" manifest ≡ dict parts.1
unfolding part_objects
part_objects-runtime manifest h = ground arith

record Extracted (report : CanonicalRunReport) (role : String) (e : RunEvidence) : Type 0 where
  pub schema : as_text (get_value "schema" report.materialize) ≡ some "lis.execution_artifact/v1"
  pub kind : as_text (get_value "kind" report.materialize) ≡ some "run_report"
  pub objects : Fields × Fields
  pub read_objects : report_objects report.materialize ≡ some objects
  pub ran : executed objects.1 ≡ true
  pub parts : Fields × Fields
  pub read_parts : part_objects objects.0 ≡ some parts
  pub runtime : RuntimeRead report role parts.1 e

extract-Extracted :
    (report : CanonicalRunReport) (role : String) {e : RunEvidence}
    → extract_run_evidence report role ≡ ok e
    → Extracted report role e
unfolding extract_run_evidence
extract-Extracted report role {e} h =
    let raw = report.materialize in
    let label : String → String = λ text. concat (role ∷ text ∷ []) in
    let (_, schema, h1) =
      >>=-eq-ok
        (require (as_text (get_value "schema" raw) == some "lis.execution_artifact/v1")
          (label ": unsupported run-report schema"))
        _ h in
    let (_, kind, h2) =
      >>=-eq-ok
        (require (as_text (get_value "kind" raw) == some "run_report")
          (label ": unsupported run-report kind"))
        _ h1 in
    let (objects, read_objects, h3) =
      >>=-eq-ok
        (required (report_objects raw) role ": run report requires manifest and report objects") _
        h2 in
    let (_, ran, h4) =
      >>=-eq-ok (require (executed objects.1) (label ": execution_status must be ok")) _ h3 in
    let (parts, read_parts, h5) =
      >>=-eq-ok
        (required (part_objects objects.0) role ": binary and runtime manifests are required") _
        h4 in
    let (binary, _, h6) =
      >>=-eq-ok
        (required (fingerprint (get_value "fingerprint" parts.0)) role
          ": manifest.binary.fingerprint is required")
        _ h5 in
    let (prompt, _, h7) =
      >>=-eq-ok
        (required (first_prompt (get_value "prompt_sequences" objects.1)) role
          ": report.prompt_sequences[0] is required")
        _ h6 in
    record {
      schema = ground (arith, require-eq-ok _ _ schema);
      kind = ground (arith, require-eq-ok _ _ kind);
      objects = objects;
      read_objects = required-ok (report_objects raw) _ _ read_objects;
      ran = require-eq-ok _ _ ran;
      parts = parts;
      read_parts = required-ok (part_objects objects.0) _ _ read_parts;
      runtime = runtime_evidence-RuntimeRead report role binary parts.1 prompt h7;
    }

batch-at_runtime :
    (manifest runtime : Fields) (n : ℕ) (others : List (List String))
    → get_value "runtime" manifest ≡ dict runtime
    → get_value "batch_size" runtime ≡ int (pos n)
    → first (dict manifest) (("runtime" ∷ "batch_size" ∷ []) ∷ others) ≡ int (pos n)
unfolding first at
batch-at_runtime manifest runtime n others p q = ground (
  arith,
  get_value-some "runtime" manifest p (λ e. ground arith),
  get_value-some "batch_size" runtime q (λ e. ground arith),
)

-- Pass 1 reads the metadata of the report: it was executed, with this batch size.
pub record MetadataAgrees (report : CanonicalRunReport) (role : String) (e : RunEvidence)
    : Type 0 where
  pub metadata : RunReportMetadata
  pub read : extract_run_metadata report.materialize report.identity role ≡ ok metadata
  pub status : String
  pub reported : metadata.execution_status ≡ some status
  pub ran : is_ok status ≡ true
  pub batch : metadata.batch_size ≡ some e.batch_size

executed-status :
    (body : Fields)
    → executed body ≡ true
    → (status : String) × (as_text (get_value "execution_status" body) ≡ some status)
      × (is_ok status ≡ true)
unfolding executed
executed-status body h = elim (Option-cases (as_text (get_value "execution_status" body))) [
  | inl missing ↦ absurd (ground (arith, missing))
  | inr (status, found) ↦ (status, found, ground (arith, found))
]

metadata-read :
    (raw : Fields) (identity : RunReportIdentity) (role : String) (manifest body : Fields) (n : ℕ)
    → as_text (get_value "schema" raw) ≡ some "lis.execution_artifact/v1"
    → as_text (get_value "kind" raw) ≡ some "run_report"
    → report_objects raw ≡ some (manifest, body)
    → first (dict manifest) (
        ("runtime" ∷ "batch_size" ∷ [])
        ∷ ("runtime_settings" ∷ "batch_size" ∷ [])
        ∷ ("runtime_settings" ∷ "batch" ∷ [])
        ∷ [])
      ≡ int (pos n)
    → (m : RunReportMetadata) × (extract_run_metadata raw identity role ≡ ok m)
      × (m.execution_status ≡ as_text (get_value "execution_status" body))
      × (m.batch_size ≡ some n)
unfolding extract_run_metadata optional_nonnegative_int Option-discrete String_discrete
    require_nonnegative_int
metadata-read raw identity role manifest body n schema kind objects batch =
    rw (schema, kind, objects, batch) (_, refl, refl, refl)

-- Evidence is read only from a report that Pass 1 reads too, under any role, with the same batch
-- size, as executed.
-- Its batch size, thread count and configured context, if given, are positive, and its three
-- fingerprints are there.
pub extract-agrees :
    (report : CanonicalRunReport) (role reader : String) {e : RunEvidence}
    → extract_run_evidence report role ≡ ok e
    → IsEvidence report role e × MetadataAgrees report reader e
extract-agrees report role reader {e} h =
    let x = extract-Extracted report role h in
    let (status, found, ran) = executed-status x.objects.1 x.ran in
    let (m, read, reported, batch) =
      metadata-read report.materialize report.identity reader x.objects.0 x.objects.1 e.batch_size
        x.schema x.kind x.read_objects
        (batch-at_runtime x.objects.0 x.parts.1 e.batch_size _
          (part_objects-runtime x.objects.0 x.read_parts) x.runtime.at_runtime) in
    (
      x.runtime.holds,
      record {
        metadata = m;
        read = read;
        status = status;
        reported = reported ∙ found;
        ran = ran;
        batch = batch;
      },
    )
