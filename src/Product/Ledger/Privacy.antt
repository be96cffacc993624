-- ===== src/Product/Ledger/Privacy.antt =====
-- The payloads of a ledger that the methods keep pass the privacy scan.
use local_inference_system.Base.{
  String, Bool, true, not, ◌&&◌, List, [], ◌∷◌, ◌≡◌, refl, arith, nat_eq, string_eq, ok, contains,
  String_discrete, Nat_discrete,
}
use local_inference_system.Json.Value.{dict}
use local_inference_system.Product.Model.{CustomerVerdict, StageState, pass, executed}
use local_inference_system.Product.Contract.{canonical_stages}
use local_inference_system.Product.Events.{
  workflow_classification_eq, attempt_started, stage_started, stage_finished, cleanup_observed,
  attempt_finished, ResidueStatus, payload_of, scan_privacy, is_absolute_path, cli_modes,
}

-- The text may stand in a report.
abbrev pub is_private : String → Bool
is_private text = not (is_absolute_path text)

abbrev pub every : (String → Bool) → List String → Bool
every p [] = true
every p (x ∷ xs) = p x && every p xs

pub every-contains :
    (p : String → Bool) (xs : List String) (a : String)
    → every p xs ≡ true
    → contains a xs ≡ true
    → p a ≡ true
every-contains p [] a h k = cc
every-contains p (x ∷ xs) a h k = ground (arith, every-contains p xs a)

pub canonical_stages-private : every is_private canonical_stages ≡ true
unfolding is_absolute_path Nat_discrete
canonical_stages-private = refl

pub cli_modes-private : every is_private cli_modes ≡ true
unfolding is_absolute_path Nat_discrete
cli_modes-private = refl

pub started-private :
    (stage : String)
    → is_private stage ≡ true
    → scan_privacy (dict (payload_of (stage_started stage))) ≡ ok tt
unfolding scan_privacy payload_of String_discrete
started-private stage h = rw h refl

pub mode-private :
    (mode : String)
    → is_private mode ≡ true
    → scan_privacy (dict (payload_of (attempt_started mode))) ≡ ok tt
unfolding scan_privacy payload_of String_discrete
mode-private mode h = rw h refl

pub finished-private :
    (stage : String) (state : StageState)
    → is_private stage ≡ true
    → scan_privacy (dict (payload_of (stage_finished stage state))) ≡ ok tt
unfolding scan_privacy payload_of String_discrete is_absolute_path Nat_discrete
finished-private stage executed h = rw h refl
finished-private stage _ h = rw h refl

pub cleanup-private :
    (residue : ResidueStatus) → scan_privacy (dict (payload_of (cleanup_observed residue))) ≡ ok tt
unfolding scan_privacy payload_of String_discrete is_absolute_path Nat_discrete
cleanup-private ResidueStatus.unknown = refl
cleanup-private _ = refl

pub verdict-private :
    (verdict : CustomerVerdict)
    → scan_privacy (dict (payload_of (attempt_finished verdict))) ≡ ok tt
unfolding scan_privacy payload_of String_discrete is_absolute_path Nat_discrete
verdict-private pass = refl
verdict-private _ = refl
