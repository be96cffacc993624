-- ===== src/Lib.antt =====
-- A model of LIS Verify (tools/lis_verify), the differential verification of a local inference
-- system, with the theorems that its decisions rest on.
--
-- The program compares two executions of a language model, a reference and a candidate, in passes.
-- Pass 0 (the calibration preflight) decides from the two runs' settings whether they may be
-- compared and how strongly. Pass 1 locates the first selected token at which the two runs differ.
-- Later passes reproduce the prefix before it and narrow the difference down to a layer. The
-- product takes the passes as stages in a fixed order and aggregates them to one verdict.
--
-- Calibration is Pass 0. Calibration/Model has the enums and data classes of
-- tools/lis_verify/model.py; Codes the registry of reason codes and their order (reason_codes.py);
-- Inputs the sides of a comparison and the build profile (inputs.py, build_profile.py); Domains the
-- four calibrators (domains.py); Preflight the effective severities and `run_calibration_preflight`
-- (pass0.py); Gate, Artifact and ReportMapping the modules of the same names (gate.py, artifact.py,
-- report_mapping.py). A calibrator returns its object, whether the domain is calibrated, and the
-- codes it raises; the code's lists of warnings stay empty and are left out.
--
-- Tokens is Pass 1. Tokens/Model has the data classes of pass1_model.py; Errors, Reports, Digests
-- and Sequence read a run report (pass1_inputs.py), Locate, Gate, Results and Run are pass1.py.
-- Pass 1 takes the gate of Pass 0, two reports and the identities that they are bound to. A function
-- that raises `RunReportInputError` returns an `Outcome`; `run_token_localization` is the chain of
-- its early returns, one function for each stretch of the code, and Results has one function for
-- each result that it returns. ReportMapping is pass1_report_mapping.py.
--
-- Product is the customer product. Contract has the stage graph, the exit codes and the validation
-- of a report's stages (product_contract.py), Actions the table `PASS_STATUS_ACTIONS`, Aggregation
-- the decisions over it (aggregation.py), and Machine the stage machine (state_machine.py), whose
-- methods take and return its state. Machine/Reach defines the states that calls reach. Events and
-- Validation are the entries of an attempt's ledger and `validate_ledger_events`, and Ledger is the
-- append-only ledger (ledger.py): its methods take the ledger and a `Tick`, which is what an append
-- meets outside (the state of the file, the clock, the outcome of the write), and return the ledger
-- or an error. Ledger/Attempt defines the ledgers that the methods lead to.
--
-- Replay is Pass 2. Model and Names have the data classes of pass2_model.py and the texts of its enums,
-- Evidence what it reads of a report (pass2_inputs.py): the positive sizes, the fingerprints and the
-- binding of the originals. Results, Prefix, Compare, Originals and Run are pass2.py: the results
-- that stop early, the expected prefix, the comparison of the runs' prefixes and contexts, the
-- reading of the runs, and `run_prefix_policy_reproduction`. A stretch of the run that may stop
-- returns an `Outcome` whose error is the result it stops with. Follows runs Pass 2 on what Pass 1
-- returned. Forced is forced_prefix.py: the metadata that bind a forced report to its sources, and
-- the validation of such a report, over the object of Pass 1's artifact (Tokens/Artifact,
-- pass1_artifact.py) and `validate_forced_prefix_metadata` (Product/ForcedPrefix,
-- product_contract.py). The fixed schema, kind and version of a result are left out of its record.
--
-- Layers is Pass 3. Gates has the gates before a trace is read: whether the result of Pass 2 is ready
-- (pass3.py), and the binding of reports and traces (pass3_inputs.py). Inputs, Summaries, Layout and Normalize read a trace
-- (pass3_inputs.py): coordinates, shapes and digests, the entries, the layout with its coverage, and
-- `normalize_layer_trace`. Coverage has the checkpoints that both traces have and their alignment,
-- Compare the loop over their digests and the suspect interval, Localize the result (pass3.py,
-- pass3_model.py), ReportMapping the reasons of pass3_report_mapping.py. Exits defines the
-- results that `run_coverage_scoped_layer_localization` may return, each with the gates passed before
-- it; of the check of Pass 2's artifact it has the reasons only. A summary that is not found
-- raises KeyError there, and is an error here. A `Pass3InputError` carries its reason as a reason
-- code; the aggregates of a summary are checked and dropped, as nothing reads them later.
--
-- Json has JSON values with Python's equality, the lookups of the readers, and the canonical text.
-- Base has what all parts share: equality tests by instance, lists, outcomes, sorting and texts.
--
-- Numbers. Token IDs, counts and steps are natural numbers. The FNV-1a digest wraps at 2 ^ 64 as in
-- the code. A float is an exact binary fraction: NaN and the infinities, which the strict reader
-- rejects in reports, have no value here. All loops are recursion over lists; `decimal` and the
-- hexadecimal texts take a count of digits that bounds the number's, and no function runs on fuel
-- that a caller could exhaust.
--
-- Parameters. The SHA-256 hex digest and Python's text of a float are the record `Host`. A
-- theorem on digests says that two texts are equal, and nothing of collisions. Of the hash library
-- only the form of its digests is assumed, 64 lower-case hexadecimal digits, and only where metadata
-- with its digests are read back (`WritesDigests`).
--
-- Not modelled: the parsing of JSON text and of files, so a report or a trace is its object, and the
-- comparison of a trace's text with its canonical form is that of their digests; the constant fields
-- `schema`, `kind` and `contract_version` of a result; the fields of a run's side that Pass 0 does not
-- read. Values have their declared types where Python would take others. The artifact of Pass 2,
-- the comparison with it in Pass 3, Pass 4, the ledger's file, the workspace, the pipelines
-- and the command line are not modelled, and neither is the C runtime under srcs, whose reports the
-- program reads.
pub mod Base
pub mod Json
pub mod Calibration
pub mod Tokens
pub mod Product
pub mod Replay
pub mod Layers
