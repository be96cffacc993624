-- ===== src/Tokens/Errors.antt =====
-- The errors of tools/lis_verify/pass1_inputs.py: a report that is malformed, or that is of a kind
-- which Pass 1 does not read.
use local_inference_system.Base.{ℕ, String, Outcome, ok, err, [], ◌∷◌}
use local_inference_system.Base.Text.{concat}
use local_inference_system.Json.Number.{pos}
use local_inference_system.Json.Value.{Value, int}
use local_inference_system.Tokens.Model.{Pass1ReasonCode, selected_token_metadata_inconsistent}

pub data RunReportInputError : Type 0 where
  malformed : String → RunReportInputError
  unsupported : String → Pass1ReasonCode → RunReportInputError

abbrev pub Read : Type 0 → Type 0
Read A = Outcome RunReportInputError A

-- `error.reason`
unfoldable pub reason : RunReportInputError → Pass1ReasonCode
reason (malformed message) = selected_token_metadata_inconsistent
reason (unsupported message code) = code

-- `str(error)`
unfoldable pub message : RunReportInputError → String
message (malformed text) = text
message (unsupported text code) = text

unfoldable pub require_nonnegative_int : Value → String → Read ℕ
require_nonnegative_int (int (pos n)) label = ok n
require_nonnegative_int value label =
    err (malformed (concat (label ∷ " must be a non-negative integer" ∷ [])))
