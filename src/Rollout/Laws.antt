-- ===== src/Rollout/Laws.antt =====
-- What health and percentages do to a decision.
use doxx.Base.{
  ℕ, ◌≤◌, ◌≡◌, refl, String, Bool, true, false, not, ◌&&◌, Option, arith, ap, if_cases, if_true,
  if◌then◌else◌,
}
use doxx.Rollout.{
  RolloutStage, disabled, canary, FeatureFlagSpec, RolloutOps, RolloutSettings, RolloutDecision,
  is_wide, strip, text_or_none, parse_stage, select_canary_bucket,
  should_block_rollout_due_to_health, can_enable_feature_based_on_status, get_store_rollout_state,
  get_feature_flag_state, is_disabled, is_full, denied, is_unknown, store_enabled, store_stage,
  is_kept_from, percentage, select_stage, decide_feature_rollout, is_feature_enabled,
}

unfoldable IsOn : RolloutDecision → Type 0
IsOn d = d.enabled ≡ true

on : (d : RolloutDecision) → d.enabled ≡ true → IsOn d
unfolding IsOn
on d enabled = enabled

enabled_of : (d : RolloutDecision) → IsOn d → d.enabled ≡ true
unfolding IsOn
enabled_of d enabled = enabled

-- Two chains of the same tests.
keeps :
    (b : Bool) (x y x' y' : RolloutDecision)
    → (IsOn x → IsOn x')
    → (IsOn y → IsOn y')
    → IsOn (if b then x else y)
    → IsOn (if b then x' else y')
keeps true x y x' y' then_case else_case = then_case
keeps false x y x' y' then_case else_case = else_case

module _ (py : RolloutOps) (settings : RolloutSettings) where
  blocked_disables :
      (feature_name : String) (store_status run_status : Option String)
      → should_block_rollout_due_to_health py settings store_status run_status ≡ true
      → can_enable_feature_based_on_status py settings feature_name store_status run_status ≡ false
  unfolding can_enable_feature_based_on_status should_block_rollout_due_to_health
  blocked_disables feature_name store_status run_status blocked = ground arith

  -- A failing status of the store or the run, where the guard looks at it, takes every feature from
  -- every item: the narrowing to the canary stage, which is logged, never has an effect.
  pub failing_disables :
      (feature_name : String) (store_name entity_key store_status run_status : Option String)
      → settings.enable_feature_flags ≡ true
      → should_block_rollout_due_to_health py settings store_status run_status ≡ true
      → decide_feature_rollout py settings feature_name store_name entity_key store_status
          run_status
        ≡ record { stage = disabled; enabled = false; canary_selected = false }
  unfolding decide_feature_rollout
  failing_disables feature_name store_name entity_key store_status run_status flags blocked =
      let IsDenied : RolloutDecision → Type 0 = λ d. d ≡ denied py settings in
      let store = text_or_none store_name in
      let fs = get_feature_flag_state py settings feature_name in
      let unknown =
        is_unknown py settings (py.get_feature_spec (strip feature_name))
        && is_disabled py settings (parse_stage py settings.default_stage) in
      let off = blocked_disables feature_name store_status run_status blocked in
      if_cases IsDenied (not settings.enable_feature_flags) (λ t. absurd (ground (arith, t, flags)))
        (λ f.
          if_cases IsDenied unknown (λ t. refl)
            (λ f.
              if_cases IsDenied (not (store_enabled py settings store)) (λ t. refl)
                (λ f.
                  if_cases IsDenied (not fs.enabled) (λ t. refl)
                    (λ f.
                      if_cases IsDenied (is_kept_from py settings fs.allowed_stores store)
                        (λ t. refl) (λ f. if_true _ _ _ (ap not off))))))

  select_mono :
      (key : String) (p q : ℕ)
      → p ≤ q
      → select_canary_bucket py key p ≡ true
      → select_canary_bucket py key q ≡ true
  unfolding select_canary_bucket
  select_mono key p q more chosen = ground arith

  -- The same settings with other percentages.
  abbrev pub with_percentages : ℕ → ℕ → RolloutSettings
  with_percentages p q = record settings { canary_percentage = p; partial_percentage = q }

  percentage_mono :
      (spec : Option FeatureFlagSpec) (stage : RolloutStage) (p q : ℕ)
      → settings.canary_percentage ≤ p
      → settings.partial_percentage ≤ q
      → percentage py settings spec stage ≤ percentage py (with_percentages p q) spec stage
  unfolding percentage
  percentage_mono spec stage p q more_canary more_partial = ground arith

  select_stage_mono :
      (feature_name : String) (store entity_key : Option String) (stage : RolloutStage) (p q : ℕ)
      → settings.canary_percentage ≤ p
      → settings.partial_percentage ≤ q
      → IsOn (select_stage py settings feature_name store entity_key stage)
      → IsOn (select_stage py (with_percentages p q) feature_name store entity_key stage)
  unfolding select_stage IsOn
  select_stage_mono feature_name store entity_key stage p q more_canary more_partial chosen =
      let spec = py.get_feature_spec (strip feature_name) in
      select_mono _ (percentage py settings spec stage) _
        (percentage_mono spec stage p q more_canary more_partial) chosen

  -- Raising the percentages never takes a feature from an item: with the same flags, stores, entity
  -- and health, what is enabled stays enabled.
  pub is_feature_enabled_mono :
      (feature_name : String) (store_name entity_key store_status run_status : Option String)
      (p q : ℕ)
      → settings.canary_percentage ≤ p
      → settings.partial_percentage ≤ q
      → is_feature_enabled py settings feature_name store_name entity_key store_status run_status
        ≡ true
      → is_feature_enabled py
          (with_percentages p q)
          feature_name
          store_name
          entity_key
          store_status
          run_status
        ≡ true
  unfolding is_feature_enabled decide_feature_rollout get_feature_flag_state get_store_rollout_state
      can_enable_feature_based_on_status should_block_rollout_due_to_health parse_stage
  is_feature_enabled_mono feature_name store_name entity_key store_status run_status p q more_canary
        more_partial chosen =
      let store = text_or_none store_name in
      let fs = get_feature_flag_state py settings feature_name in
      let wide = store_stage py settings store fs.stage in
      let health = should_block_rollout_due_to_health py settings store_status run_status in
      let stage = if health && is_wide wide then canary else wide in
      let unknown =
        is_unknown py settings (py.get_feature_spec (strip feature_name))
        && is_disabled py settings (parse_stage py settings.default_stage) in
      let guarded =
        not (can_enable_feature_based_on_status py settings feature_name store_status run_status) in
      enabled_of
        (decide_feature_rollout py (with_percentages p q) feature_name store_name entity_key
          store_status run_status)
        (keeps (not settings.enable_feature_flags) _ _ _ _ (λ h. h)
          (keeps unknown _ _ _ _ (λ h. h)
            (keeps (not (store_enabled py settings store)) _ _ _ _ (λ h. h)
              (keeps (not fs.enabled) _ _ _ _ (λ h. h)
                (keeps (is_kept_from py settings fs.allowed_stores store) _ _ _ _ (λ h. h)
                  (keeps guarded _ _ _ _ (λ h. h)
                    (keeps (is_disabled py settings stage) _ _ _ _ (λ h. h)
                      (keeps (is_full py settings stage) _ _ _ _ (λ h. h)
                        (select_stage_mono feature_name store entity_key stage p q more_canary
                          more_partial))))))))
          (on
            (decide_feature_rollout py settings feature_name store_name entity_key store_status
              run_status)
            chosen))
