-- ===== src/Rollout.antt =====
-- Feature flags and the rollout by store: application/release/rollout_policy_engine.py with
-- canary_selector.py and rollout_guard.py, without the log, the notes and the reported reasons. The
-- registry of config/feature_flags.py is a parameter.
pub mod Laws
mod Tests
use doxx.Base.{
  ℕ, ◌≤◌, String, Bool, true, false, not, ◌&&◌, ◌||◌, Option, none, some, List, [], ◌∷◌, map, leb,
  ltb, ◌=s=◌, is_empty, if◌then◌else◌,
}
use doxx.Fingerprint.{strip_start, strip_end, is_blank}
use doxx.Crm.Answers.{is_listed}

pub data RolloutStage : Type 0 where
  disabled canary partial full : RolloutStage

pub record FeatureFlagSpec : Type 0 where
  pub default_stage : RolloutStage
  pub default_enabled : Bool
  pub allowed_stores : List String
  pub supports_canary : Bool

pub record StoreRolloutState : Type 0 where
  pub enabled : Bool
  pub stage : RolloutStage

pub record FeatureFlagState : Type 0 where
  pub stage : RolloutStage
  pub enabled : Bool
  pub allowed_stores : List String

pub record RolloutDecision : Type 0 where
  pub stage : RolloutStage
  pub enabled : Bool
  pub canary_selected : Bool

-- What the engine reads of config/settings.py.
pub record RolloutSettings : Type 0 where
  pub enable_feature_flags : Bool
  pub enable_store_rollout_policy : Bool
  pub enable_progressive_store_enablement : Bool
  pub disabled_stores : List String
  pub canary_stores : List String
  pub partial_stores : List String
  pub default_stage : String
  pub canary_percentage : ℕ
  pub partial_percentage : ℕ
  pub enable_canary_rollout : Bool
  pub hash_based_selection : Bool
  pub guard_by_status : Bool
  pub block_on_failing_status : Bool
  pub allow_degraded_canary : Bool

-- The registry, Python's `str.lower` and the joining of texts, and the bucket of a key: the first
-- bytes of its SHA-256, modulo 100.
pub record RolloutOps : Type 0 where
  pub get_feature_spec : String → Option FeatureFlagSpec
  pub str_lower : String → String
  pub feature_part : String → String
  pub join_bar : List String → String
  pub bucket : String → ℕ

abbrev pub rank : RolloutStage → ℕ
rank disabled = 0
rank canary = 1
rank partial = 2
rank full = 3

abbrev pub strip : String → String
strip s = strip_end (strip_start s)

unfoldable pub narrow : RolloutStage → RolloutStage → RolloutStage
narrow a b = if leb (rank a) (rank b) then a else b

abbrev pub is_wide : RolloutStage → Bool
is_wide full = true
is_wide partial = true
is_wide _ = false

abbrev pub text_or_none : Option String → Option String
text_or_none none = none
text_or_none (some s) = let t = strip s in if is_blank t then none else some t

abbrev pub is_status : String → Option String → Bool
is_status wanted none = false
is_status wanted (some s) = s =s= wanted

module _ (py : RolloutOps) where
  unfoldable pub parse_stage : String → RolloutStage
  parse_stage s =
      let v = py.str_lower (strip s) in
      if v =s= "canary"
      then canary
      else if v =s= "partial"
      then partial
      else if v =s= "full"
      then full
      else disabled

  -- `str.lower` of a status
  abbrev pub status_str : Option String → Option String
  status_str none = none
  status_str (some s) = some (py.str_lower s)

  abbrev pub is_store_of : List String → String → Bool
  is_store_of stores key = is_listed key (map (λ s. py.str_lower (strip s)) stores)

  abbrev pub key_parts : String → Option String → String → List String
  key_parts store none feature = store ∷ py.feature_part (strip feature) ∷ []
  key_parts store (some entity) feature = store ∷ entity ∷ strip feature ∷ []

  -- With a name of a feature, as the engine calls it.
  unfoldable pub build_rollout_key : String → Option String → String → String
  build_rollout_key store entity_key feature_name =
      py.join_bar (key_parts (py.str_lower (strip store)) (text_or_none entity_key) feature_name)

  unfoldable pub select_canary_bucket : String → ℕ → Bool
  select_canary_bucket key percentage =
      if leb percentage 0
      then false
      else if leb 100 percentage
      then true
      else ltb (py.bucket key) percentage

  module _ (settings : RolloutSettings) where
    unfoldable pub should_block_rollout_due_to_health : Option String → Option String → Bool
    should_block_rollout_due_to_health store_status run_status =
        settings.guard_by_status
        && settings.block_on_failing_status
        && (is_status "failing" (status_str store_status)
            || is_status "failing" (status_str run_status))

    abbrev pub is_aggressive : String → Bool
    is_aggressive name =
        is_listed name
          ("lifecycle_delta_events" ∷ "replay_reconciliation" ∷ "browser_escalation_policy" ∷ [])

    unfoldable pub can_enable_feature_based_on_status :
        String → Option String → Option String → Bool
    can_enable_feature_based_on_status feature_name store_status run_status =
        if not settings.guard_by_status
        then true
        else if should_block_rollout_due_to_health store_status run_status
        then false
        else not (
            (is_status "degraded" (status_str store_status)
              || is_status "degraded" (status_str run_status))
            && is_aggressive feature_name
            && not settings.allow_degraded_canary)

    unfoldable pub get_store_rollout_state : String → StoreRolloutState
    get_store_rollout_state store_name =
        let key = py.str_lower (strip store_name) in
        if not settings.enable_store_rollout_policy
          || not settings.enable_progressive_store_enablement
        then record { enabled = true; stage = full }
        else if is_store_of settings.disabled_stores key
        then record { enabled = false; stage = disabled }
        else if is_store_of settings.canary_stores key
        then record { enabled = true; stage = canary }
        else if is_store_of settings.partial_stores key
        then record { enabled = true; stage = partial }
        else record { enabled = true; stage = full }

    abbrev pub is_disabled : RolloutStage → Bool
    is_disabled disabled = true
    is_disabled _ = false

    abbrev pub is_full : RolloutStage → Bool
    is_full full = true
    is_full _ = false

    abbrev pub is_canary : RolloutStage → Bool
    is_canary canary = true
    is_canary _ = false

    -- `get_feature_flag_state` after its first test; no store overrides a feature.
    abbrev pub flag_state_of : Option FeatureFlagSpec → FeatureFlagState
    flag_state_of none =
        let st = parse_stage settings.default_stage in
        record { stage = st; enabled = not (is_disabled st); allowed_stores = [] }
    flag_state_of (some spec) = record {
      stage = spec.default_stage;
      enabled = spec.default_enabled;
      allowed_stores = spec.allowed_stores;
    }

    unfoldable pub get_feature_flag_state : String → FeatureFlagState
    get_feature_flag_state feature_name =
        if not settings.enable_feature_flags
        then record { stage = full; enabled = true; allowed_stores = [] }
        else flag_state_of (py.get_feature_spec (strip feature_name))

    abbrev pub denied : RolloutDecision
    denied = record { stage = disabled; enabled = false; canary_selected = false }

    abbrev pub granted : RolloutDecision
    granted = record { stage = full; enabled = true; canary_selected = false }

    abbrev pub is_unknown : Option FeatureFlagSpec → Bool
    is_unknown none = true
    is_unknown (some spec) = false

    abbrev pub lacks_canary : Option FeatureFlagSpec → Bool
    lacks_canary none = false
    lacks_canary (some spec) = not spec.supports_canary

    -- Of the store, if one is given: whether it is enabled, its stage, and whether the feature is
    -- kept from it.
    abbrev pub store_enabled : Option String → Bool
    store_enabled none = true
    store_enabled (some store) = (get_store_rollout_state store).enabled

    abbrev pub store_stage : Option String → RolloutStage → RolloutStage
    store_stage none stage = stage
    store_stage (some store) stage = narrow stage (get_store_rollout_state store).stage

    abbrev pub is_kept_from : List String → Option String → Bool
    is_kept_from stores none = false
    is_kept_from stores (some store) =
        not (is_empty stores) && not (is_store_of stores (py.str_lower store))

    abbrev pub or_global : Option String → String
    or_global none = "global"
    or_global (some store) = store

    unfoldable pub percentage : Option FeatureFlagSpec → RolloutStage → ℕ
    percentage spec stage =
        if not settings.hash_based_selection
        then 100
        else if not settings.enable_canary_rollout
        then 100
        else if lacks_canary spec
        then 100
        else if is_canary stage
        then settings.canary_percentage
        else settings.partial_percentage

    -- The end of a decision, for a stage that is neither disabled nor full.
    unfoldable pub select_stage :
        String → Option String → Option String → RolloutStage → RolloutDecision
    select_stage feature_name store entity_key stage =
        let pct = percentage (py.get_feature_spec (strip feature_name)) stage in
        let selected =
          select_canary_bucket (build_rollout_key (or_global store) entity_key feature_name) pct in
        record { stage = stage; enabled = selected; canary_selected = selected }

    unfoldable pub decide_feature_rollout :
        String → Option String → Option String → Option String → Option String → RolloutDecision
    decide_feature_rollout feature_name store_name entity_key store_status run_status =
        let spec = py.get_feature_spec (strip feature_name) in
        let store = text_or_none store_name in
        let fs = get_feature_flag_state feature_name in
        let wide = store_stage store fs.stage in
        let stage =
          if should_block_rollout_due_to_health store_status run_status && is_wide wide
          then canary
          else wide in
        if not settings.enable_feature_flags
        then granted
        else if is_unknown spec && is_disabled (parse_stage settings.default_stage)
        then denied
        else if not (store_enabled store)
        then denied
        else if not fs.enabled
        then denied
        else if is_kept_from fs.allowed_stores store
        then denied
        else if not (can_enable_feature_based_on_status feature_name store_status run_status)
        then denied
        else if is_disabled stage
        then denied
        else if is_full stage
        then granted
        else select_stage feature_name store entity_key stage

    unfoldable pub is_feature_enabled :
        String → Option String → Option String → Option String → Option String → Bool
    is_feature_enabled feature_name store_name entity_key store_status run_status =
        (decide_feature_rollout feature_name store_name entity_key store_status run_status).enabled
