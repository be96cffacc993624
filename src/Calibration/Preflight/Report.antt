-- ===== src/Calibration/Preflight/Report.antt =====
-- The parts of the preflight artifact agree with one another.
use local_inference_system.Base.{Bool, true, ◌≡◌, ◌↔◌, arith, is_nonempty, keep}
use local_inference_system.Calibration.Model.{
  comparison_blocked, incompatible, no_comparison, block,
}
use local_inference_system.Calibration.Codes.Order.{order_codes-keep, is_nonempty-order_codes}
use local_inference_system.Calibration.Inputs.{PreflightInputs}
use local_inference_system.Calibration.Preflight.{
  has_severity, raised_codes, resolve_verdict, run_calibration_preflight,
}

resolve_verdict-agrees :
    (b d : Bool)
    → let (verdict, eligibility, limit) = resolve_verdict b d in
      (verdict ≡ comparison_blocked ↔ b ≡ true)
      × (eligibility ≡ incompatible ↔ b ≡ true)
      × (limit ≡ no_comparison ↔ b ≡ true)
unfolding resolve_verdict
resolve_verdict-agrees b d = ground arith

module _ (inputs : PreflightInputs) where
  -- The blocking reasons are those of the reported reason codes whose effective severity is a block,
  -- in the order in which they are reported.
  pub blocking_reasons-eq-keep :
      (run_calibration_preflight inputs).blocking_reasons
      ≡ keep
          (has_severity block inputs.declared_mode inputs.declared_submode)
          (run_calibration_preflight inputs).reason_codes
  unfolding run_calibration_preflight
  blocking_reasons-eq-keep =
      order_codes-keep (has_severity block inputs.declared_mode inputs.declared_submode)
        (raised_codes inputs)

  -- The artifact gives a blocking reason exactly if its verdict is a block, exactly if the runs are
  -- incompatible, and exactly if no comparison is allowed.
  pub preflight_agrees :
      let a = run_calibration_preflight inputs in
      (a.pass0_verdict ≡ comparison_blocked ↔ is_nonempty a.blocking_reasons ≡ true)
      × (a.comparison_eligibility ≡ incompatible ↔ is_nonempty a.blocking_reasons ≡ true)
      × (a.verdict_strength_limit ≡ no_comparison ↔ is_nonempty a.blocking_reasons ≡ true)
  unfolding run_calibration_preflight
  preflight_agrees = rw is_nonempty-order_codes (resolve_verdict-agrees _ _)
