-- ===== src/Product/Machine/Reach.antt =====
-- The states that the machine reaches, and what holds of each of them.
use local_inference_system.Base.{
  suc, String, true, none, some, List, [], ◌∷◌, ◌++◌, map, ◌≡◌, ◌⊎◌, refl, arith, nat_eq, string_eq,
  option_eq, length, get_elem?, take, ok,
}
use local_inference_system.Product.Model.{executed, StageResult, stage_state_eq}
use local_inference_system.Product.Contract.{
  state_of, all_executed, canonical_stages, stage_dependencies, dependencies_of,
}
use local_inference_system.Product.Machine.{
  StageMachine, initial, next_stage, start, name_of, finish_fault, Finish, result_of, finish,
}
use local_inference_system.Product.Machine.Order.{
  take-next, contains-take, canonical_stages-no_repeats, state_of-append, state_of-none,
  all_executed-append,
}

-- A run of the machine from a state: calls of `start` and `finish` that return.
pub data Steps (origin : StageMachine) : StageMachine → Type 0 where
  unmoved : Steps origin origin
  started :
      {m n : StageMachine} (stage : String) → Steps origin m → start m stage ≡ ok n → Steps origin n
  finished :
      {m n : StageMachine} (f : Finish) {r : StageResult}
      → Steps origin m
      → finish m f ≡ ok (r, n)
      → Steps origin n

abbrev pub Reachable : StageMachine → Type 0
Reachable m = Steps initial m

-- An executed stage other than the aggregation has executed dependencies.
abbrev pub Supported : List StageResult → String → Type 0
Supported rs stage =
    state_of rs stage ≡ some executed
    → (stage ≡ "aggregation") ⊎ (all_executed rs (dependencies_of stage_dependencies stage) ≡ true)

-- The results are the first stages in canonical order, and the stage that runs is the next one.
pub record IsWellFormed (m : StageMachine) : Type 0 where
  pub names : map name_of m.results ≡ take (length m.results) canonical_stages
  pub current :
      (stage : String)
      → m.active ≡ some stage
      → get_elem? canonical_stages (length m.results) ≡ some stage
  pub supported : (stage : String) → Supported m.results stage

map-append {ℓ} :
    {A B : Type ℓ} (f : A → B) (xs : List A) (y : A)
    → map f (xs ++ (y ∷ [])) ≡ (map f xs ++ (f y ∷ []))
map-append f [] y = refl
map-append f (x ∷ xs) y = ground (arith, map-append f xs y)

pub length-append {ℓ} :
    {A : Type ℓ} (xs : List A) (y : A) → length (xs ++ (y ∷ [])) ≡ suc (length xs)
length-append [] y = refl
length-append (x ∷ xs) y = ground (arith, length-append xs y)

initial-IsWellFormed : IsWellFormed initial
initial-IsWellFormed = record {
  names = refl;
  current = λ stage h. cc;
  supported = λ stage h. absurd (unfold state_of in ground (arith, h));
}

start-IsWellFormed :
    {m n : StageMachine} (stage : String) → IsWellFormed m → start m stage ≡ ok n → IsWellFormed n
start-IsWellFormed {m} {n} stage w h =
    let (same, e, next) : (m.results ≡ n.results)
        × (n.active ≡ some stage)
        × (next_stage m ≡ some stage) =
      unfold start in ground arith in
    record {
      names = rw same at w.names;
      current = λ s p. unfold next_stage in ground arith;
      supported = rw same at w.supported;
    }

-- An added result is fresh, and keeps its dependencies if it is executed.
append-Supported :
    (rs : List StageResult) (r : StageResult)
    → ((stage : String) → Supported rs stage)
    → state_of rs r.name ≡ none
    → (r.state ≡ executed
        → (r.name ≡ "aggregation")
          ⊎ (all_executed rs (dependencies_of stage_dependencies r.name) ≡ true))
    → (stage : String) → Supported (rs ++ (r ∷ [])) stage
append-Supported rs r before fresh now stage h = ground (
  arith,
  state_of-append rs r stage,
  before stage,
  now,
  all_executed-append rs r (dependencies_of stage_dependencies stage) fresh,
)

finish_fault-executed :
    (rs : List StageResult) (r : StageResult)
    → finish_fault rs r ≡ none
    → r.state ≡ executed
    → (r.name ≡ "aggregation")
      ⊎ (all_executed rs (dependencies_of stage_dependencies r.name) ≡ true)
finish_fault-executed rs r h e = unfold finish_fault in ground arith

-- A `finish` that returns appends the result of the running stage, which has no fault.
pub finish-result :
    (m : StageMachine) (f : Finish) {r : StageResult} {n : StageMachine}
    → finish m f ≡ ok (r, n)
    → (m.active ≡ some r.name)
      × (finish_fault m.results r ≡ none)
      × (n.results ≡ (m.results ++ (r ∷ [])))
      × (n.active ≡ none)
unfolding finish result_of
finish-result m f h = ground arith

finish-IsWellFormed :
    {m n : StageMachine} (f : Finish) {r : StageResult}
    → IsWellFormed m
    → finish m f ≡ ok (r, n)
    → IsWellFormed n
finish-IsWellFormed {m} {n} f {r} w h =
    let (active, sound, added, idle) = finish-result m f h in
    let next = w.current r.name active in
    let fresh : state_of m.results r.name ≡ none = state_of-none m.results r.name (
      rw w.names
        (contains-take canonical_stages (length m.results) canonical_stages-no_repeats next)) in
    record {
      names =
          rw (added, map-append name_of m.results r, length-append m.results r, w.names)
            (take-next canonical_stages (length m.results) next);
      current = λ stage p. cc;
      supported = rw added (
          append-Supported m.results r w.supported fresh (finish_fault-executed m.results r sound));
    }

pub Reachable-IsWellFormed : {m : StageMachine} → Reachable m → IsWellFormed m
Reachable-IsWellFormed unmoved = initial-IsWellFormed
Reachable-IsWellFormed (started stage r h) = start-IsWellFormed stage (Reachable-IsWellFormed r) h
Reachable-IsWellFormed (finished f r h) = finish-IsWellFormed f (Reachable-IsWellFormed r) h
