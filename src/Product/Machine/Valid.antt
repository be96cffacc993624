-- ===== src/Product/Machine/Valid.antt =====
-- The stages of a finished machine pass the validation of the report.
use native.Mathlib.Decide.{dec_lt}
use local_inference_system.Base.{
  ℕ, ◌≤◌, String, Bool, true, ◌&&◌, Option, none, some, List, [], ◌∷◌, ◌++◌, map, ◌≡◌, refl, arith,
  ◌!=◌, nat_eq, string_eq, option_eq, list_eq, length, ok, ap, leb, length-take, get_elem?-some,
  String_discrete,
}
use local_inference_system.Product.Model.{StageResult, stage_state_eq}
use local_inference_system.Product.Contract.{
  canonical_stages, stage_dependencies, dependencies_of, validate_stage, validate_each,
  validate_dependencies, validate_stages, is_sha256, utf8_length, max_identifier_bytes,
  max_detail_bytes, require_string, require_sha256,
}
use local_inference_system.Product.Machine.{
  StageMachine, next_stage, start, name_of, finish_fault, finalize,
}
use local_inference_system.Product.Machine.Reach.{
  Reachable, unmoved, started, finished, IsWellFormed, Reachable-IsWellFormed, Supported,
  finish-result,
}

-- The property holds of each element.
abbrev pub Each {ℓ} : {A : Type ℓ} → (A → Type 0) → List A → Type 0
Each P [] = Unit
Each P (x ∷ xs) = P x × Each P xs

Each-append {ℓ} :
    {A : Type ℓ} (P : A → Type 0) (xs : List A) (y : A) → Each P xs → P y → Each P (xs ++ (y ∷ []))
Each-append P [] y h p = (p, tt)
Each-append P (x ∷ xs) y (q, h) p = (q, Each-append P xs y h p)

-- The result was added without a fault.
abbrev Sound : StageResult → Type 0
Sound r = (before : List StageResult) × (finish_fault before r ≡ none)

abbrev within : Option String → ℕ → Bool
within none maximum = true
within (some text) maximum = text != "" && leb (utf8_length text) maximum

abbrev digest : Option String → Bool
digest none = true
digest (some text) = is_sha256 text

-- The texts of a result, where they are given, have the form and the size that a report allows.
abbrev pub Bounded : StageResult → Type 0
Bounded r =
    (digest r.result_ref
      && within r.evidence_tier max_identifier_bytes
      && within r.failure_class max_identifier_bytes
      && within r.reason max_detail_bytes)
    ≡ true

Reachable-Sound : {m : StageMachine} → Reachable m → Each Sound m.results
Reachable-Sound unmoved = tt
Reachable-Sound (started {m} {n} stage r h) =
    let same : m.results ≡ n.results = unfold start in ground arith in
    let sound : Each Sound m.results = Reachable-Sound r in rw same at sound
Reachable-Sound (finished {m} {n} f {r = row} r h) =
    let (active, sound, added, idle) = finish-result m f h in
    rw added (Each-append Sound m.results row (Reachable-Sound r) (m.results, sound))

validate_stage-ok : (r : StageResult) → Sound r → Bounded r → validate_stage r ≡ ok tt
unfolding validate_stage finish_fault require_string require_sha256
validate_stage-ok r (before, h) bounded = ground arith

validate_each-ok :
    (rs : List StageResult) → Each Sound rs → Each Bounded rs → validate_each rs ≡ ok tt
unfolding validate_each
validate_each-ok [] s b = refl
validate_each-ok (r ∷ rs) (s, ss) (b, bs) =
    rw (validate_stage-ok r s b, validate_each-ok rs ss bs) refl

abbrev Listed : String × List String → Type 0
Listed (stage, needed) = needed ≡ dependencies_of stage_dependencies stage

validate_dependencies-ok :
    (rs : List StageResult) (table : List (String × List String))
    → ((stage : String) → Supported rs stage)
    → Each Listed table
    → validate_dependencies rs table ≡ ok tt
unfolding validate_dependencies
validate_dependencies-ok rs [] h l = refl
validate_dependencies-ok rs ((stage, needed) ∷ table) h (l, ls) =
    ground (arith, h stage, validate_dependencies-ok rs table h ls)

stage_dependencies-Listed : Each Listed stage_dependencies
unfolding dependencies_of String_discrete
stage_dependencies-Listed = (
  refl,
  (refl, (refl, (refl, (refl, (refl, (refl, (refl, (refl, (refl, (refl, (refl, tt))))))))))),
)

length-map {ℓ} : {A B : Type ℓ} (f : A → B) (xs : List A) → length (map f xs) ≡ length xs
length-map f [] = refl
length-map f (x ∷ xs) = ground (arith, length-map f xs)

-- There are never more results than stages.
pub IsWellFormed-bound : {m : StageMachine} → IsWellFormed m → length m.results ≤ 12
IsWellFormed-bound {m} w = omega (
  arith,
  length-map name_of m.results,
  ap length w.names,
  length-take (length m.results) canonical_stages,
)

-- A machine that has no next stage has the results of all stages.
IsWellFormed-full :
    {m : StageMachine} → IsWellFormed m → next_stage m ≡ none → length m.results ≡ 12
unfolding next_stage
IsWellFormed-full {m} w final =
    let bound = IsWellFormed-bound w in
    elim (dec_lt (length m.results) 12) [
      | yes less ↦
          let (stage, e) = get_elem?-some canonical_stages (length m.results) less in
          ground (arith, e)
      | no more ↦ omega arith
    ]

-- The stages of a machine that calls bring from its initial state to its end pass the validation
-- of the report, if their texts have the form and the size that a report allows.
pub finalize-valid :
    {m : StageMachine} {rs : List StageResult}
    → Reachable m
    → finalize m ≡ ok rs
    → Each Bounded rs
    → validate_stages rs ≡ ok tt
finalize-valid {m} {rs} reach h bounded =
    let (same, final) : (m.results ≡ rs) × (next_stage m ≡ none) =
      unfold finalize in ground arith in
    let w = Reachable-IsWellFormed reach in
    let full = IsWellFormed-full w final in
    let names : map name_of rs ≡ canonical_stages = rw same at (rw full at w.names) in
    let sound : Each Sound m.results = Reachable-Sound reach in
    let each = validate_each-ok rs (rw same at sound) bounded in
    let supported : (stage : String) → Supported rs stage = rw same at w.supported in
    let needed =
      validate_dependencies-ok rs stage_dependencies supported stage_dependencies-Listed in
    unfold validate_stages in ground (arith, names, rw same at full, each, needed)
