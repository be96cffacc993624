-- ===== src/Layers/Inputs.antt =====
-- tools/lis_verify/pass3_inputs.py: layer traces, and the reading of a coordinate, a shape and a
-- digest. A `Pass3InputError` carries its local reason as the reason code that it names, and a trace
-- is its object with the identity that its text has.
use local_inference_system.Base.{
  ℕ, ◌*◌, String, Bool, true, not, ◌&&◌, Option, none, some, List, [], ◌∷◌, ◌==◌, ◌!=◌, nat_eq,
  string_eq, option_eq, list_eq, ltb, contains, if◌then◌else◌, Outcome, ok, err, ◌>>=◌, ◌>>◌,
  require,
}
use local_inference_system.Base.Text.{concat}
use local_inference_system.Json.Number.{pos}
use local_inference_system.Json.Value.{Value, int, str, list, dict, Items, nil, cons, Fields}
use local_inference_system.Json.Lookup.{get_value, as_text}
use local_inference_system.Tokens.Reports.{Host, canonical_json_sha256}
use local_inference_system.Product.Contract.{is_sha256}
use local_inference_system.Product.ForcedPrefix.{has_keys}
use local_inference_system.Layers.Model.{
  CheckpointCoordinate, LogicalKey, logical_key, logical_key_eq, CheckpointDigest, Pass3ReasonCode,
}

pub record Pass3InputError : Type 0 where
  pub message : String
  pub reason : Pass3ReasonCode

abbrev pub Parse : Type 0 → Type 0
Parse A = Outcome Pass3InputError A

abbrev pub malformed : String → String → Pass3InputError
malformed label text = record {
  message = concat (label ∷ text ∷ []);
  reason = Pass3ReasonCode.checkpoint_summary_malformed;
}

abbrev pub refused : String → Pass3ReasonCode → Pass3InputError
refused message reason = record { message = message; reason = reason }

pub record LayerTraceIdentity : Type 0 where
  pub trace_sha256 : String
  pub schema : Option String
  pub kind : Option String
  pub artifact_set_id : Option String
  pub semantic_manifest_sha256 : Option String
  pub runtime_checkpoint_step : Option ℕ

pub record CanonicalLayerTrace : Type 0 where
  pub identity : LayerTraceIdentity
  pub materialize : Fields

unfoldable pub target_of : Value → Option ℕ
target_of (dict layout) = elim (get_value "runtime_checkpoint_step" layout) [
  | int (pos n) ↦ some n
  | _ ↦ none
]
target_of _ = none

unfoldable pub manifest_sha256 : Host → Value → Option String
manifest_sha256 host (dict manifest) = some (canonical_json_sha256 host (dict manifest))
manifest_sha256 host _ = none

-- `CanonicalLayerTrace.from_object`
unfoldable pub trace_from_object : Host → Fields → CanonicalLayerTrace
trace_from_object host raw = record {
  identity = record {
    trace_sha256 = canonical_json_sha256 host (dict raw);
    schema = as_text (get_value "schema" raw);
    kind = as_text (get_value "kind" raw);
    artifact_set_id = as_text (get_value "artifact_set_id" raw);
    semantic_manifest_sha256 = manifest_sha256 host (get_value "manifest" raw);
    runtime_checkpoint_step = target_of (get_value "checkpoint_layout" raw);
  };
  materialize = raw;
}

unfoldable pub nonnegative_int : Value → String → Parse ℕ
nonnegative_int (int (pos n)) label = ok n
nonnegative_int value label = err (malformed label " must be a non-negative integer")

unfoldable pub positive_int : Value → String → Parse ℕ
positive_int value label = do
  n ← nonnegative_int value label
  require (n != 0) (malformed label " must be positive")
  ok n

abbrev pub coordinate_fields : List String
coordinate_fields =
    "runtime_checkpoint_step" ∷ "layer_index" ∷ "tensor_role" ∷ "batch_index" ∷ "sequence_index"
    ∷ "stage_order" ∷ "execution_ordinal" ∷ []

-- A text that is not empty.
unfoldable pub tensor_role_of : Value → String → Parse String
tensor_role_of (str role) label =
    require (role != "") (malformed label " tensor_role is malformed") >> ok role
tensor_role_of value label = err (malformed label " tensor_role is malformed")

unfoldable pub coordinate : Value → String → Parse CheckpointCoordinate
coordinate (dict raw) label = do
  require (has_keys coordinate_fields raw) (malformed label " coordinate is incomplete")
  role ← tensor_role_of (get_value "tensor_role" raw) label
  step ← nonnegative_int (get_value "runtime_checkpoint_step" raw) (concat (label ∷ ".step" ∷ []))
  layer ← nonnegative_int (get_value "layer_index" raw) (concat (label ∷ ".layer" ∷ []))
  batch ← nonnegative_int (get_value "batch_index" raw) (concat (label ∷ ".batch" ∷ []))
  sequence ← nonnegative_int (get_value "sequence_index" raw) (concat (label ∷ ".sequence" ∷ []))
  stage ← nonnegative_int (get_value "stage_order" raw) (concat (label ∷ ".stage" ∷ []))
  ordinal ← nonnegative_int (get_value "execution_ordinal" raw) (concat (label ∷ ".ordinal" ∷ []))
  ok (record {
    runtime_checkpoint_step = step;
    layer_index = layer;
    tensor_role = role;
    batch_index = batch;
    sequence_index = sequence;
    stage_order = stage;
    execution_ordinal = ordinal;
  })
coordinate value label = err (malformed label " coordinate must be an object")

-- `a.order_key < b.order_key`, in the order of tuples
unfoldable pub order_lt : CheckpointCoordinate → CheckpointCoordinate → Bool
order_lt a b =
    if a.runtime_checkpoint_step != b.runtime_checkpoint_step
    then ltb a.runtime_checkpoint_step b.runtime_checkpoint_step
    else if a.layer_index != b.layer_index
    then ltb a.layer_index b.layer_index
    else if a.stage_order != b.stage_order
    then ltb a.stage_order b.stage_order
    else ltb a.execution_ordinal b.execution_ordinal

unfoldable pub is_behind : Option CheckpointCoordinate → CheckpointCoordinate → Bool
is_behind none c = true
is_behind (some previous) c = order_lt previous c

-- The loop, with the keys that it has seen and the coordinate before.
unfoldable pub order_from :
    String → List LogicalKey → Option CheckpointCoordinate → List CheckpointCoordinate → Parse Unit
order_from label seen previous [] = ok tt
order_from label seen previous (c ∷ cs) =
    let rest = order_from label (logical_key c ∷ seen) (some c) cs in
    require (not (contains (logical_key c) seen)) (
      refused (concat (label ∷ " contains a duplicate logical coordinate" ∷ []))
        Pass3ReasonCode.duplicate_checkpoint_coordinate)
    >> require (is_behind previous c) (
        refused (concat (label ∷ " is not in contracted execution order" ∷ []))
          Pass3ReasonCode.checkpoint_alignment_inconsistent)
    >> rest

unfoldable pub validate_coordinate_order : List CheckpointCoordinate → String → Parse Unit
validate_coordinate_order coordinates label = order_from label [] none coordinates

unfoldable pub dimensions : Items → String → Parse (List ℕ)
dimensions nil label = ok []
dimensions (cons value rest) label = do
  n ← positive_int value label
  ns ← dimensions rest label
  ok (n ∷ ns)

unfoldable pub shape : Value → String → Parse (List ℕ)
shape (list (cons value rest)) label = dimensions (cons value rest) (concat (label ∷ ".shape" ∷ []))
shape value label = err (malformed label " shape must be a non-empty array")

-- `math.prod`
unfoldable pub prod : List ℕ → ℕ
prod [] = 1
prod (n ∷ ns) = n * prod ns

abbrev pub digest_algorithm : String
digest_algorithm = "sha256"

abbrev pub digest_version : String
digest_version = "lis.checkpoint.fp32le/v1"

abbrev pub digest_dtype : String
digest_dtype = "fp32"

abbrev pub digest_byte_order : String
digest_byte_order = "little"

abbrev pub digest_canonicalization : String
digest_canonicalization = "ieee754-binary32-le;canonical-qnan;preserve-signed-zero"

-- The texts of the envelope, if all are texts.
unfoldable pub texts_of : Fields → List String → Option (List String)
texts_of raw [] = some []
texts_of raw (key ∷ keys) = elim (as_text (get_value key raw)) [
  | none ↦ none
  | some text ↦ elim (texts_of raw keys) [ none ↦ none | some texts ↦ some (text ∷ texts) ]
]

abbrev pub digest_contract : String → List String
digest_contract role =
    digest_algorithm ∷ digest_version ∷ role ∷ digest_dtype ∷ digest_byte_order
    ∷ digest_canonicalization ∷ []

abbrev pub digest_fields : List String
digest_fields =
    "algorithm" ∷ "version" ∷ "tensor_role" ∷ "observed_dtype" ∷ "byte_order" ∷ "canonicalization"
    ∷ []

unfoldable pub envelope : Fields → Parse (List String × String)
envelope raw = elim (texts_of raw digest_fields) [
  | none ↦ err (malformed "checkpoint digest" " envelope is malformed")
  | some fields ↦ elim (as_text (get_value "value" raw)) [
    | none ↦ err (malformed "checkpoint digest" " envelope is malformed")
    | some value ↦ ok (fields, value)
  ]
]

unfoldable pub digest : Value → List ℕ → String → Parse CheckpointDigest
digest (dict raw) summary_shape role = do
  digest_shape ← shape (get_value "shape" raw) "digest"
  (fields, value) ← envelope raw
  require (fields == digest_contract role && digest_shape == summary_shape && is_sha256 value) (
      refused "checkpoint digest contract is incompatible"
        Pass3ReasonCode.checkpoint_digest_incompatible)
  ok (record {
    algorithm = digest_algorithm;
    version = digest_version;
    tensor_role = role;
    shape = digest_shape;
    observed_dtype = digest_dtype;
    byte_order = digest_byte_order;
    canonicalization = digest_canonicalization;
    value = value;
  })
digest value summary_shape role =
    err (refused "checkpoint digest is required" Pass3ReasonCode.summary_field_missing)
