-- ===== src/Layers/Exits/Reasons.antt =====
-- The reasons that the reading of a trace raises are never those of a comparison.
use local_inference_system.Base.{
  ℕ, suc, String, Bool, true, false, not, Option, none, some, List, [], ◌∷◌, ◌≡◌, arith, nat_eq,
  string_eq, option_eq, list_eq, require, OnError, >>=-OnError,
}
use local_inference_system.Json.Value.{Value, list, dict, Items, nil, cons, Fields}
use local_inference_system.Json.Lookup.{get_value}
use local_inference_system.Tokens.Reports.{Host}
use local_inference_system.Layers.Model.{
  CheckpointCoordinate, LogicalKey, logical_key, logical_key_eq, checkpoint_coordinate_eq,
  CheckpointSummary, CoverageEntry, Pass3ReasonCode,
}
use local_inference_system.Layers.Inputs
use local_inference_system.Layers.Summaries
use local_inference_system.Layers.Layout
use local_inference_system.Layers.Normalize
use local_inference_system.Layers.Inputs.{Pass3InputError, CanonicalLayerTrace, LayerTraceIdentity}

-- A reason other than the two of a comparison that was made.
unfoldable pub is_failure : Pass3ReasonCode → Bool
is_failure Pass3ReasonCode.observable_mismatch_found = false
is_failure Pass3ReasonCode.no_mismatch_in_captured_coverage = false
is_failure _ = true

abbrev pub Fails : Pass3InputError → Type 0
Fails error = is_failure error.reason ≡ true

positive_int-Fails :
    (value : Value) (label : String) → OnError Fails (Inputs.positive_int value label)
unfolding Inputs.positive_int Inputs.nonnegative_int is_failure
positive_int-Fails value label = ground arith

coordinate-Fails : (value : Value) (label : String) → OnError Fails (Inputs.coordinate value label)
unfolding Inputs.coordinate Inputs.nonnegative_int Inputs.tensor_role_of is_failure
coordinate-Fails value label = ground arith

dimensions-Fails : (items : Items) (label : String) → OnError Fails (Inputs.dimensions items label)
unfolding Inputs.dimensions
dimensions-Fails nil label = tt
dimensions-Fails (cons value rest) label =
    ground (arith, positive_int-Fails value label, dimensions-Fails rest label)

shape-Fails : (value : Value) (label : String) → OnError Fails (Inputs.shape value label)
unfolding Inputs.shape is_failure
shape-Fails (list (cons value rest)) label = dimensions-Fails (cons value rest) _
shape-Fails value label = ground arith

order_from-Fails :
    (label : String) (seen : List LogicalKey) (previous : Option CheckpointCoordinate)
    (cs : List CheckpointCoordinate)
    → OnError Fails (Inputs.order_from label seen previous cs)
unfolding Inputs.order_from is_failure
order_from-Fails label seen previous [] = tt
order_from-Fails label seen previous (c ∷ cs) =
    ground (arith, order_from-Fails label (logical_key c ∷ seen) (some c) cs)

order-Fails :
    (cs : List CheckpointCoordinate) (label : String)
    → OnError Fails (Inputs.validate_coordinate_order cs label)
unfolding Inputs.validate_coordinate_order
order-Fails cs label = order_from-Fails label [] none cs

digest-Fails :
    (value : Value) (dims : List ℕ) (role : String) → OnError Fails (Inputs.digest value dims role)
unfolding Inputs.digest Inputs.envelope is_failure
digest-Fails (dict raw) dims role = ground (arith, shape-Fails (get_value "shape" raw) "digest")
digest-Fails value dims role = ground arith

some_null-Fails :
    (entry : Fields) (label : String) (names : List String)
    → OnError Fails (Summaries.some_null entry label names)
unfolding Summaries.some_null is_failure
some_null-Fails entry label [] = tt
some_null-Fails entry label (name ∷ names) = ground (arith, some_null-Fails entry label names)

aggregates-Fails :
    (entry : Fields) (label : String) → OnError Fails (Summaries.check_aggregates entry label)
unfolding Summaries.check_aggregates is_failure
aggregates-Fails entry label =
    ground (arith, some_null-Fails entry label ("min" ∷ "max" ∷ "mean" ∷ "l2" ∷ []))

summary_of-Fails :
    (path label : String) (entry : Fields) → OnError Fails (Summaries.summary_of path label entry)
unfolding Summaries.summary_of Inputs.nonnegative_int is_failure
summary_of-Fails path label entry =
    >>=-OnError Fails (Inputs.coordinate (dict entry) label) _ (coordinate-Fails (dict entry) label)
      λ c _.
        >>=-OnError Fails (Inputs.shape (get_value "shape" entry) label) _
          (shape-Fails (get_value "shape" entry) label)
          λ dims _. ground (
            arith,
            aggregates-Fails entry label,
            digest-Fails (get_value "digest" entry) dims c.tensor_role,
          )

entry_summary-Fails :
    (path label : String) (entry : Value) → OnError Fails (Summaries.entry_summary path label entry)
unfolding Summaries.entry_summary is_failure
entry_summary-Fails path label (dict entry) = ground (arith, summary_of-Fails path label entry)
entry_summary-Fails path label value = ground arith

summaries_from-Fails :
    (path : String) (index : ℕ) (entries : Items)
    → OnError Fails (Summaries.summaries_from path index entries)
unfolding Summaries.summaries_from
summaries_from-Fails path index nil = tt
summaries_from-Fails path index (cons entry rest) = ground (
  arith,
  entry_summary-Fails path (Summaries.indexed "layer_trace" index) entry,
  summaries_from-Fails path (suc index) rest,
)

coordinates_from-Fails :
    (name : String) (index : ℕ) (items : Items)
    → OnError Fails (Layout.coordinates_from name index items)
unfolding Layout.coordinates_from
coordinates_from-Fails name index nil = tt
coordinates_from-Fails name index (cons item rest) = ground (
  arith,
  coordinate-Fails item (Summaries.indexed name index),
  coordinates_from-Fails name (suc index) rest,
)

missing_entry-Fails :
    (label : String) (item : Value) → OnError Fails (Layout.missing_entry label item)
unfolding Layout.missing_entry Layout.detail_of is_failure
missing_entry-Fails label (dict item) =
    ground (arith, coordinate-Fails (get_value "coordinate" item) label)
missing_entry-Fails label item = ground arith

missing_from-Fails : (index : ℕ) (items : Items) → OnError Fails (Layout.missing_from index items)
unfolding Layout.missing_from
missing_from-Fails index nil = tt
missing_from-Fails index (cons item rest) = ground (
  arith,
  missing_entry-Fails (Summaries.indexed "missing" index) item,
  missing_from-Fails (suc index) rest,
)

check_coverage-Fails :
    (target total : ℕ) (requested captured : List CheckpointCoordinate)
    (missing : List CoverageEntry)
    → OnError Fails (Layout.check_coverage target total requested captured missing)
unfolding Layout.check_coverage is_failure
check_coverage-Fails target total requested captured missing = ground (
  arith,
  order-Fails requested "requested coverage",
  order-Fails captured "captured coverage",
  order-Fails (Layout.missing_coordinates_of missing) "missing coverage",
)

coverage_items-Fails : (layout : Fields) → OnError Fails (Layout.coverage_items layout)
unfolding Layout.coverage_items is_failure
coverage_items-Fails layout = ground arith

read_coverage-Fails :
    (target : ℕ) (layout : Fields) → OnError Fails (Layout.read_coverage target layout)
unfolding Layout.read_coverage
read_coverage-Fails target layout =
    >>=-OnError Fails
      (Inputs.positive_int (get_value "total_layer_count" layout) "total_layer_count") _
      (positive_int-Fails _ _)
      λ total _.
        >>=-OnError Fails (Layout.coverage_items layout) _ (coverage_items-Fails layout) λ items _.
          >>=-OnError Fails (Layout.coordinates_from "requested" 0 items.0) _
            (coordinates_from-Fails "requested" 0 items.0)
            λ requested _.
              >>=-OnError Fails (Layout.coordinates_from "captured" 0 items.1.0) _
                (coordinates_from-Fails "captured" 0 items.1.0)
                λ captured _.
                  >>=-OnError Fails (Layout.missing_from 0 items.1.1) _
                    (missing_from-Fails 0 items.1.1)
                    λ missing _.
                      ground (arith, check_coverage-Fails target total requested captured missing)

layout_of-Fails : (value : Value) → OnError Fails (Layout.layout_of value)
unfolding Layout.layout_of is_failure
layout_of-Fails value = ground arith

target_step-Fails :
    (trace : CanonicalLayerTrace) (layout : Fields)
    → OnError Fails (Normalize.target_step trace layout)
unfolding Normalize.target_step Inputs.nonnegative_int is_failure
target_step-Fails trace layout = ground arith

semantics_of-Fails : (value : Value) → OnError Fails (Normalize.semantics_of value)
unfolding Normalize.semantics_of Normalize.precision_of is_failure
semantics_of-Fails value = ground arith

check_summaries-Fails :
    (captured : List CheckpointCoordinate) (summaries : List CheckpointSummary)
    → OnError Fails (Normalize.check_summaries captured summaries)
unfolding Normalize.check_summaries is_failure
check_summaries-Fails captured summaries =
    ground (arith, order-Fails (Normalize.coordinates_of summaries) "layer summaries")

read_declared-Fails :
    (host : Host) (trace : CanonicalLayerTrace) → OnError Fails (Normalize.read_declared host trace)
unfolding Normalize.read_declared Normalize.materialize Normalize.entries_of is_failure
read_declared-Fails host trace =
    >>=-OnError Fails (Normalize.materialize host trace) _ (ground arith) λ raw _.
      >>=-OnError Fails
        (require (not (Normalize.has_prohibited_tensor_payload (dict raw)))
          (Inputs.malformed "full tensor payloads" " are prohibited"))
        _ (ground arith)
        λ _ _.
          >>=-OnError Fails (Layout.layout_of (get_value "checkpoint_layout" raw)) _
            (layout_of-Fails (get_value "checkpoint_layout" raw))
            λ layout _.
              >>=-OnError Fails (Normalize.target_step trace layout) _
                (target_step-Fails trace layout)
                λ target _.
                  >>=-OnError Fails (Layout.read_coverage target layout) _
                    (read_coverage-Fails target layout)
                    λ coverage _. ground (arith, semantics_of-Fails (get_value "manifest" raw))

pub normalize-Fails :
    (host : Host) (trace : CanonicalLayerTrace)
    → OnError Fails (Normalize.normalize_layer_trace host trace)
unfolding Normalize.normalize_layer_trace
normalize-Fails host trace =
    >>=-OnError Fails (Normalize.read_declared host trace) _ (read_declared-Fails host trace)
      λ declared _.
        >>=-OnError Fails (Summaries.summaries_from declared.1.0.1 0 declared.1.1) _
          (summaries_from-Fails declared.1.0.1 0 declared.1.1)
          λ summaries _.
            ground (arith, check_summaries-Fails declared.0.captured_coordinates summaries)
