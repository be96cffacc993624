-- ===== src/Product/Machine.antt =====
-- tools/lis_verify/state_machine.py: the machine that takes the stages in canonical order. The
-- proofs are in the modules below.
pub mod Order
pub mod Reach
pub mod Valid
pub mod Progress
use local_inference_system.Base.{
  ℕ, String, Bool, true, false, not, ◌&&◌, ◌||◌, Option, none, some, List, [], ◌∷◌, ◌++◌, map, ◌==◌,
  ◌!=◌, nat_eq, string_eq, option_eq, if◌then◌else◌, contains, length, get_elem?, is_some, Outcome,
  ok, err,
}
use local_inference_system.Product.Model.{
  StageState, executed, not_applicable, blocked, failed, StageResult,
}
use local_inference_system.Product.Contract.{
  canonical_stages, stage_dependencies, dependencies_of, all_executed, in_canonical_stages,
}

pub record StageMachine : Type 0 where
  pub active : Option String
  pub results : List StageResult

-- `StageMachine()`
abbrev pub initial : StageMachine
initial = record { active = none; results = [] }

unfoldable pub next_stage : StageMachine → Option String
next_stage m =
    if length m.results == length canonical_stages
    then none
    else get_elem? canonical_stages (length m.results)

-- What a method returns, or the text of a `StageTransitionError`.
abbrev pub Transition : Type 0 → Type 0
Transition A = Outcome String A

unfoldable pub start : StageMachine → String → Transition StageMachine
start m stage =
    if is_some m.active
    then err "a stage is already running"
    else if some stage != next_stage m
    then err "stages must start in canonical order"
    else ok (record m { active = some stage })

-- `not text`: None or the empty text
abbrev pub is_falsy : Option String → Bool
is_falsy none = true
is_falsy (some text) = text == ""

abbrev pub name_of : StageResult → String
name_of r = r.name

abbrev pub is_prior : List StageResult → Option String → Bool
is_prior results none = false
is_prior results (some stage) = contains stage (map name_of results)

-- The error that `finish` raises for a result behind these, if any.
unfoldable pub finish_fault : List StageResult → StageResult → Option String
finish_fault results r = elim r.state [
  | executed ↦
      if not (is_some r.result_ref) || not (is_some r.evidence_tier)
      then some "executed stage requires result evidence"
      else if is_some r.failure_class || is_some r.reason || is_some r.blocker
      then some "executed stage carries failure fields"
      else if r.name != "aggregation"
          && not (all_executed results (dependencies_of stage_dependencies r.name))
      then some "executed stage has a non-executed dependency"
      else none
  | not_applicable ↦
      if is_falsy r.reason
        || is_some r.result_ref
        || is_some r.evidence_tier
        || is_some r.failure_class
        || is_some r.blocker
      then some "not_applicable fields are incoherent"
      else none
  | blocked ↦
      if is_falsy r.reason || not (in_canonical_stages r.blocker)
      then some "blocked stage requires reason and blocker"
      else if not (is_prior results r.blocker)
      then some "blocked stage requires a prior blocker"
      else if is_some r.result_ref || is_some r.evidence_tier || is_some r.failure_class
      then some "blocked stage carries result evidence"
      else none
  | failed ↦
      if is_falsy r.reason || is_falsy r.failure_class
      then some "failed stage requires class and reason"
      else if is_some r.result_ref || is_some r.evidence_tier || is_some r.blocker
      then some "failed stage carries result evidence"
      else none
]

-- The keyword arguments of `finish`.
pub record Finish : Type 0 where
  pub state : StageState
  pub result_ref : Option String
  pub evidence_tier : Option String
  pub failure_class : Option String
  pub reason : Option String
  pub blocker : Option String

unfoldable pub result_of : String → Finish → StageResult
result_of stage f = record {
  name = stage;
  state = f.state;
  result_ref = f.result_ref;
  evidence_tier = f.evidence_tier;
  failure_class = f.failure_class;
  reason = f.reason;
  blocker = f.blocker;
}

unfoldable pub finish : StageMachine → Finish → Transition (StageResult × StageMachine)
finish m f = elim m.active [
  | none ↦ err "no stage is running"
  | some stage ↦ elim (finish_fault m.results (result_of stage f)) [
    | some fault ↦ err fault
    | none ↦ ok (
      result_of stage f,
      record { active = none; results = m.results ++ (result_of stage f ∷ []) },
    )
  ]
]

unfoldable pub finalize : StageMachine → Transition (List StageResult)
finalize m =
    if is_some m.active || is_some (next_stage m)
    then err "state machine is not terminal"
    else ok m.results
