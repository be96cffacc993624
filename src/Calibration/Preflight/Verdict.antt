-- ===== src/Calibration/Preflight/Verdict.antt =====
-- The verdict of the preflight, decided by the conditions on the inputs alone.
use local_inference_system.Base.{Bool, true, false, not, ◌≡◌, ◌↔◌, arith, is_nonempty-keep}
use local_inference_system.Calibration.Model.{comparison_blocked, comparison_allowed}
use local_inference_system.Calibration.Inputs.{PreflightInputs}
use local_inference_system.Calibration.Preflight.{resolve_verdict, run_calibration_preflight}
use local_inference_system.Calibration.Preflight.Blocking.{
  must_block, fully_calibrated, block-raised, downgrade-raised,
}

resolve_verdict-blocked_iff : (b d : Bool) → (resolve_verdict b d).0 ≡ comparison_blocked ↔ b ≡ true
unfolding resolve_verdict
resolve_verdict-blocked_iff b d = ground arith

resolve_verdict-allowed_iff :
    (b d c : Bool)
    → (b ≡ false → d ≡ not c)
    → (resolve_verdict b d).0 ≡ comparison_allowed ↔ ((b ≡ false) × (c ≡ true))
unfolding resolve_verdict
resolve_verdict-allowed_iff b d c h = ground arith

module _ (inputs : PreflightInputs) where
  -- The preflight blocks the comparison exactly when the declared mode is external, or the decode
  -- policies of the two sides differ, or both prompt arrays are given and differ, or both config
  -- fingerprints are given and differ and the comparison is no configuration-equivalence check, or
  -- both model families are known and differ.
  pub preflight-blocked_iff :
      (run_calibration_preflight inputs).pass0_verdict ≡ comparison_blocked
      ↔ must_block inputs ≡ true
  unfolding run_calibration_preflight
  preflight-blocked_iff =
      rw (is_nonempty-keep, block-raised inputs) (resolve_verdict-blocked_iff (must_block inputs) _)

  -- The preflight allows an unlimited comparison exactly when nothing blocks it, the reference's
  -- policy is raw greedy, both prompts are direct token arrays that are equal, the epsilon is bound
  -- at run time and the config fingerprints are given and equal, KV writes round to nearest even,
  -- and no two different backends are named.
  pub preflight-allowed_iff :
      (run_calibration_preflight inputs).pass0_verdict ≡ comparison_allowed
      ↔ ((must_block inputs ≡ false) × (fully_calibrated inputs ≡ true))
  unfolding run_calibration_preflight
  preflight-allowed_iff =
      rw (is_nonempty-keep, block-raised inputs)
        (resolve_verdict-allowed_iff (must_block inputs) _ (fully_calibrated inputs)
          (downgrade-raised inputs))
