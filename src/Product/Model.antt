-- ===== src/Product/Model.antt =====
-- tools/lis_verify/product_contract.py and report_model.py: the enums of the contract and the
-- result of a stage.
use local_inference_system.Base.{String, Option, Eq}

pub data CustomerVerdict : Type 0 where
  pass regression inconclusive unsupported harness_error : CustomerVerdict

pub data ExecutionPolicy : Type 0 where
  default require_supported : ExecutionPolicy

pub data StageState : Type 0 where
  executed not_applicable blocked failed : StageState

pub data AggregationAction : Type 0 where
  continue stop inherit retain_proven_regression not_applicable : AggregationAction

pub record StageResult : Type 0 where
  pub name : String
  pub state : StageState
  pub result_ref : Option String
  pub evidence_tier : Option String
  pub failure_class : Option String
  pub reason : Option String
  pub blocker : Option String

unfoldable pub CustomerVerdict-discrete : Discrete CustomerVerdict
CustomerVerdict-discrete = hlevel

instance abbrev pub customer_verdict_eq : Eq CustomerVerdict
customer_verdict_eq = record { same = CustomerVerdict-discrete }

unfoldable pub StageState-discrete : Discrete StageState
StageState-discrete = hlevel

instance abbrev pub stage_state_eq : Eq StageState
stage_state_eq = record { same = StageState-discrete }
