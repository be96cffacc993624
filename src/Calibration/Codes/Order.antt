-- ===== src/Calibration/Codes/Order.antt =====
-- The order of reason codes does not depend on the order in which they were raised.
use local_inference_system.Base.{
  true, Bool, List, [], ◌∷◌, ◌≡◌, refl, sym, ap, ◌∙◌, ◌&&◌, contains, keep, keep_ext, keep-keep,
  contains-keep, is_nonempty, is_nonempty-keep, any_of_contains, contains_head,
}
use local_inference_system.Base.Sorting.{ascending, sort_by-distinct}
use local_inference_system.Calibration.Model.{CalibrationReasonCode, incompatible_decode_policy}
use local_inference_system.Calibration.Equality.{
  calibration_reason_code_eq, CalibrationReasonCode-discrete,
}
use local_inference_system.Calibration.Codes.{all_codes, key_lt, order_codes}

all_codes-ascending : ascending key_lt all_codes ≡ true
unfolding ascending key_lt CalibrationReasonCode-discrete
all_codes-ascending = refl

pub mem-all_codes : (c : CalibrationReasonCode) → contains c all_codes ≡ true
unfolding CalibrationReasonCode-discrete
mem-all_codes incompatible_decode_policy = refl
mem-all_codes _ = refl

-- The ordered codes are the registry's codes, in the registry's order, each once, that occur in
-- the list.
pub order_codes-eq-keep :
    (codes : List CalibrationReasonCode)
    → order_codes codes ≡ keep (λ c. contains c codes) all_codes
unfolding order_codes
order_codes-eq-keep codes =
    sort_by-distinct key_lt all_codes codes all_codes-ascending mem-all_codes

module _ (p : CalibrationReasonCode → Bool) (codes : List CalibrationReasonCode) where
  -- Ordering the codes that pass a test is keeping those of the ordered codes.
  pub order_codes-keep : order_codes (keep p codes) ≡ keep p (order_codes codes)
  order_codes-keep =
      order_codes-eq-keep (keep p codes)
      ∙ keep_ext (λ c. contains c (keep p codes)) (λ c. contains c codes && p c)
          (λ c. contains-keep p c codes) all_codes
      ∙ sym (keep-keep p (λ c. contains c codes) all_codes)
      ∙ ap (keep p) (sym (order_codes-eq-keep codes))

pub is_nonempty-order_codes :
    (codes : List CalibrationReasonCode) → is_nonempty (order_codes codes) ≡ is_nonempty codes
is_nonempty-order_codes [] =
    rw (order_codes-eq-keep, is_nonempty-keep) (unfold CalibrationReasonCode-discrete in refl)
is_nonempty-order_codes (c ∷ cs) =
    rw (order_codes-eq-keep, is_nonempty-keep)
      (any_of_contains (λ d. contains d (c ∷ cs)) c all_codes (mem-all_codes c)
        (contains_head c cs))
