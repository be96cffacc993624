-- ===== src/Product/Machine/Progress.antt =====
-- The machine never gets stuck: every state that it reaches can be brought to the end.
use local_inference_system.Base.{
  ℕ, zero, suc, ◌+◌, ◌-◌, ◌<◌, String, none, some, List, [], ◌∷◌, ◌++◌, ◌≡◌, refl, arith, nat_eq,
  string_eq, option_eq, length, Option-cases, ok, get_elem?-some, lt_of_get_elem?, inl, inr,
  String_discrete, Nat_discrete,
}
use local_inference_system.Product.Model.{failed, StageResult}
use local_inference_system.Product.Contract.{canonical_stages}
use local_inference_system.Product.Machine.{
  StageMachine, next_stage, start, finish_fault, Finish, result_of, finish, finalize,
}
use local_inference_system.Product.Machine.Reach.{
  Reachable, Steps, unmoved, started, finished, Reachable-IsWellFormed, length-append,
}
use local_inference_system.Product.Machine.Valid.{IsWellFormed-bound}

-- A stage may always fail.
abbrev pub failure : Finish
failure = record {
  state = failed;
  result_ref = none;
  evidence_tier = none;
  failure_class = some "harness_error";
  reason = some "not executed";
  blocker = none;
}

finish-failure :
    (m : StageMachine) (stage : String)
    → m.active ≡ some stage
    → finish m failure
      ≡ ok (
        result_of stage failure,
        record { active = none; results = m.results ++ (result_of stage failure ∷ []) },
      )
unfolding finish finish_fault result_of String_discrete
finish-failure m stage e = rw e refl

-- Calls that return lead on to a state that `finalize` accepts.
abbrev pub Closes : StageMachine → Type 0
Closes m = (n : StageMachine) × (rs : List StageResult) × Steps m n × (finalize n ≡ ok rs)

finalize-full :
    (m : StageMachine) → m.active ≡ none → length m.results ≡ 12 → finalize m ≡ ok m.results
unfolding finalize next_stage Nat_discrete
finalize-full m e full = rw (e, full) refl

start-next :
    (m : StageMachine)
    → m.active ≡ none
    → length m.results < 12
    → (stage : String) × (start m stage ≡ ok (record m { active = some stage }))
start-next m idle less =
    let (stage, e) = get_elem?-some canonical_stages (length m.results) less in
    (stage, unfold start in unfold next_stage in ground (arith, e))

-- The argument bounds the stages that are left.
Closes-idle :
    {origin : StageMachine} (left : ℕ) (m : StageMachine)
    → m.active ≡ none
    → length m.results + left ≡ 12
    → Steps origin m
    → Closes origin
Closes-idle zero m idle bound reach = (m, m.results, reach, finalize-full m idle (omega arith))
Closes-idle (suc left) m idle bound reach =
    let (stage, begins) = start-next m idle (omega arith) in
    let running : StageMachine = record m { active = some stage } in
    let row = result_of stage failure in
    Closes-idle left (record { active = none; results = m.results ++ (row ∷ []) }) refl
      (omega (arith, length-append m.results row))
      (finished failure (started stage reach begins) (finish-failure running stage refl))

Closes-running :
    (m : StageMachine) (stage : String) → m.active ≡ some stage → length m.results < 12 → Closes m
Closes-running m stage active less =
    let row = result_of stage failure in
    let n : StageMachine = record { active = none; results = m.results ++ (row ∷ []) } in
    Closes-idle (11 - length m.results) n refl (omega (arith, length-append m.results row))
      (finished failure unmoved (finish-failure m stage active))

-- From every reachable state, further calls that return lead to one that `finalize` accepts.
pub Reachable-Closes : {m : StageMachine} → Reachable m → Closes m
Reachable-Closes {m} reach =
    let w = Reachable-IsWellFormed reach in
    let bound = IsWellFormed-bound w in
    elim (Option-cases m.active) [
      | inl idle ↦ Closes-idle (12 - length m.results) m idle (omega arith) unmoved
      | inr (stage, active) ↦
          Closes-running m stage active
            (lt_of_get_elem? canonical_stages (length m.results) (w.current stage active))
    ]
