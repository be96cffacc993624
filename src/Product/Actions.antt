-- ===== src/Product/Actions.antt =====
-- tools/lis_verify/product_contract.py: `PASS_STATUS_ACTIONS`, the action and the target for each
-- status of each pass.
use local_inference_system.Base.{String, List, [], ◌∷◌}

-- The entries of one pass: a status, its action and its target.
abbrev pub Entries : Type 0
Entries = List (String × (String × String))

abbrev retain : String × String
retain = ("retain_proven_regression_and_block_localization", "pass1_token_localization")

abbrev pub pass0_actions : Entries
pass0_actions =
    ("comparison_allowed", ("continue", "pass1_token_localization"))
    ∷ ("limited_comparison_allowed", ("continue", "pass1_token_localization"))
    ∷ ("comparison_blocked", ("stop", "pass0_block_reason_partition"))
    ∷ []

abbrev pub pass1_actions : Entries
pass1_actions =
    ("comparison_blocked_by_pass0", ("inherit", "pass0_calibration"))
    ∷ ("token_equivalent_on_observed_range", ("stop", "PASS"))
    ∷ ("first_mismatch_found", ("continue", "pass2_prefix_policy_reproduction"))
    ∷ ("input_token_divergence", ("stop", "HARNESS_ERROR"))
    ∷ ("selected_token_array_missing", ("stop", "HARNESS_ERROR"))
    ∷ ("selected_token_identity_unverified", ("stop", "INCONCLUSIVE"))
    ∷ ("unsupported_comparison", ("stop", "UNSUPPORTED"))
    ∷ ("inconclusive", ("stop", "INCONCLUSIVE"))
    ∷ []

abbrev pub pass2_actions : Entries
pass2_actions =
    ("reproduction_verified", ("continue", "pass3a_discovery"))
    ∷ ("comparison_blocked_by_pass0", ("inherit", "pass0_calibration"))
    ∷ ("token_localization_not_available", ("inherit", "pass1_token_localization"))
    ∷ ("no_mismatch_to_reproduce", ("not_applicable", "pass1_token_localization"))
    ∷ ("source_binding_inconsistent", retain)
    ∷ ("prefix_material_unavailable", retain)
    ∷ ("prefix_reproduction_failed", retain)
    ∷ ("decode_policy_reproduction_failed", retain)
    ∷ ("checkpoint_step_mapping_mismatch", retain)
    ∷ ("context_position_mismatch", retain)
    ∷ ("unsupported_reproduction_mode", retain)
    ∷ ("inconclusive", retain)
    ∷ []

abbrev pub pass3_actions : Entries
pass3_actions =
    ("observable_mismatch_found", ("continue", "pass3_role_partition"))
    ∷ ("no_mismatch_in_captured_coverage", retain)
    ∷ ("comparison_blocked_by_pass2", ("inherit", "pass2_prefix_policy_reproduction"))
    ∷ ("insufficient_common_coverage", retain)
    ∷ ("source_binding_inconsistent", retain)
    ∷ ("checkpoint_alignment_inconsistent", retain)
    ∷ ("checkpoint_artifact_missing", retain)
    ∷ ("checkpoint_summary_malformed", retain)
    ∷ ("comparison_policy_unavailable", retain)
    ∷ ("unsupported_checkpoint_layout", retain)
    ∷ ("inconclusive", retain)
    ∷ []

abbrev pub pass4_actions : Entries
pass4_actions =
    ("observable_intra_layer_mismatch_found", ("stop", "REGRESSION"))
    ∷ ("mismatch_bounded_to_inherited_closing_boundary", ("stop", "REGRESSION"))
    ∷ ("not_applicable", ("inherit", "pass3b_authoritative_localization"))
    ∷ ("comparison_blocked_by_pass3", ("inherit", "pass3b_authoritative_localization"))
    ∷ ("insufficient_common_intra_layer_coverage", retain)
    ∷ ("source_binding_inconsistent", retain)
    ∷ ("checkpoint_alignment_inconsistent", retain)
    ∷ ("checkpoint_summary_malformed", retain)
    ∷ ("comparison_policy_unavailable", retain)
    ∷ ("unsupported_parent", retain)
    ∷ ("unsupported_intra_layer_layout", retain)
    ∷ ("parent_revalidation_inconsistent", retain)
    ∷ []

abbrev pub pass_status_actions : List (String × Entries)
pass_status_actions =
    ("pass0", pass0_actions)
    ∷ ("pass1", pass1_actions)
    ∷ ("pass2", pass2_actions)
    ∷ ("pass3", pass3_actions)
    ∷ ("pass4", pass4_actions)
    ∷ []
