-- ===== src/Rollout/Tests.antt =====
-- A shop in the canary stage.
use doxx.Base.{◌≡◌, refl, arith, true, false, none, some, [], ◌∷◌}
use doxx.Fingerprint.{is_space, strip_start, strip_end}
use doxx.Rollout.{
  narrow, select_stage, select_canary_bucket, percentage, get_store_rollout_state,
  get_feature_flag_state, can_enable_feature_based_on_status, full, disabled, FeatureFlagSpec,
  RolloutOps, RolloutSettings, decide_feature_rollout, is_feature_enabled,
  should_block_rollout_due_to_health,
}
use doxx.Rollout.Laws.{with_percentages, failing_disables, is_feature_enabled_mono}

abbrev spec : FeatureFlagSpec
spec = record {
  default_stage = full;
  default_enabled = true;
  allowed_stores = [];
  supports_canary = true;
}

abbrev py : RolloutOps
py = record {
  get_feature_spec = λ name. some spec;
  str_lower = λ s. s;
  feature_part = λ s. s;
  join_bar = λ parts. "key";
  bucket = λ key. 7;
}

abbrev settings : RolloutSettings
settings = record {
  enable_feature_flags = true;
  enable_store_rollout_policy = true;
  enable_progressive_store_enablement = true;
  disabled_stores = [];
  canary_stores = "uzum" ∷ [];
  partial_stores = [];
  default_stage = "full";
  canary_percentage = 10;
  partial_percentage = 30;
  enable_canary_rollout = true;
  hash_based_selection = true;
  guard_by_status = true;
  block_on_failing_status = true;
  allow_degraded_canary = false;
}

failing : should_block_rollout_due_to_health py settings (some "failing") none ≡ true
unfolding should_block_rollout_due_to_health
failing = refl

failing_disables_example :
    decide_feature_rollout py settings "captcha_hooks"
      (some "uzum")
      (some "uzum:1")
      (some "failing")
      none
    ≡ record { stage = disabled; enabled = false; canary_selected = false }
failing_disables_example =
    failing_disables py settings "captcha_hooks" (some "uzum") (some "uzum:1") (some "failing") none
      refl failing

in_canary :
    is_feature_enabled py settings "captcha_hooks" (some "uzum") (some "uzum:1") none none ≡ true
unfolding is_feature_enabled decide_feature_rollout strip_end strip_start is_space
    get_store_rollout_state get_feature_flag_state can_enable_feature_based_on_status
    should_block_rollout_due_to_health narrow select_stage select_canary_bucket percentage
in_canary = refl

is_feature_enabled-mono_example :
    is_feature_enabled py
      (with_percentages py settings 20 30)
      "captcha_hooks"
      (some "uzum")
      (some "uzum:1")
      none
      none
    ≡ true
is_feature_enabled-mono_example =
    is_feature_enabled_mono py settings "captcha_hooks" (some "uzum") (some "uzum:1") none none 20
      30 (omega arith) (omega arith) in_canary
