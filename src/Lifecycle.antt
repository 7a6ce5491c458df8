-- ===== src/Lifecycle.antt =====
-- The choice of the event that the CRM is sent: application/lifecycle/lifecycle_policy.py, with the
-- types of domain/crm_lifecycle.py.

pub mod Safety
mod Tests
use doxx.Base.{
  String, Bool, true, false, not, ◌&&◌, ◌||◌, Option, none, some, List, [], ◌∷◌, ◌++◌, ◌=s=◌,
  if◌then◌else◌,
}
use doxx.Fingerprint.{strip_start, strip_end, is_blank}

pub data EventType : Type 0 where
  product_found : EventType
  price_changed : EventType
  out_of_stock : EventType
  characteristic_added : EventType

-- What the policy reads of config/settings.py.
pub record Policy : Type 0 where
  pub default_event : String
  pub enable_delta_events : Bool
  pub enable_runtime_delta_events : Bool
  pub enable_price_changed_event : Bool
  pub enable_out_of_stock_event : Bool
  pub enable_characteristic_added_event : Bool
  pub allow_price_changed_with_runtime_ids : Bool
  pub allow_out_of_stock_with_runtime_ids : Bool
  pub allow_characteristic_added_with_runtime_ids : Bool
  pub force_product_found_fallback : Bool

-- The ids of a `CrmIdentityContext`, which are all that the policy reads of it.
pub record CrmIdentityContext : Type 0 where
  pub crm_listing_id : Option String
  pub crm_product_id : Option String

pub record LifecycleDecision : Type 0 where
  pub selected_event_type : EventType
  pub allowed : Bool
  pub fallback_applied : Bool
  pub fallback_reason : Option String
  pub required_ids : List String
  pub notes : List String

-- `None`, blank text and text
unfoldable pub clean_id : Option String → Option String
clean_id none = none
clean_id (some v) = let s = strip_end (strip_start v) in if is_blank s then none else some s

-- The truth value of an id: `None` and the empty text are no id.
abbrev pub given : Option String → Bool
given none = false
given (some id) = not (is_blank id)

-- A text as one of `_ALLOWED`, and none for any other text.
unfoldable pub allowed_type : String → Option EventType
allowed_type d =
    if d =s= "product_found"
    then some product_found
    else if d =s= "price_changed"
    then some price_changed
    else if d =s= "out_of_stock"
    then some out_of_stock
    else if d =s= "characteristic_added"
    then some characteristic_added
    else none

abbrev pub or_product_found : Option EventType → EventType
or_product_found none = product_found
or_product_found (some t) = t

module _ (settings : Policy) where
  unfoldable pub default_event_type : EventType
  default_event_type =
      let d = settings.default_event in
      let text = if is_blank d then "product_found" else d in
      or_product_found (allowed_type (strip_end (strip_start text)))

  unfoldable pub runtime_deltas_enabled : Bool
  runtime_deltas_enabled = settings.enable_runtime_delta_events && settings.enable_delta_events

  unfoldable pub infer_requested_event_type : String → EventType
  infer_requested_event_type change_hint =
      if not settings.enable_delta_events
      then default_event_type
      else if settings.enable_price_changed_event && (change_hint =s= "price_update")
      then price_changed
      else if settings.enable_out_of_stock_event && (change_hint =s= "stock_update")
      then out_of_stock
      else if settings.enable_characteristic_added_event && (change_hint =s= "spec_update")
      then characteristic_added
      else default_event_type

  abbrev pub allow : EventType → String → LifecycleDecision
  allow et note = record {
    selected_event_type = et;
    allowed = true;
    fallback_applied = false;
    fallback_reason = none;
    required_ids = [];
    notes = note ∷ [];
  }

  abbrev pub refuse : EventType → String → List String → List String → LifecycleDecision
  refuse et reason ids notes = record {
    selected_event_type = et;
    allowed = false;
    fallback_applied = false;
    fallback_reason = some reason;
    required_ids = ids;
    notes = notes;
  }

  -- The test of a listing's id, which two events share.
  unfoldable pub needs_listing : EventType → String → Option String → LifecycleDecision
  needs_listing et note id =
      if given id
      then allow et "listing_id_present"
      else refuse et "missing_crm_listing_id" ("crm_listing_id" ∷ []) (note ∷ [])

  unfoldable pub needs_product : Bool → Option String → LifecycleDecision
  needs_product signal id =
      if not (given id)
      then refuse characteristic_added "missing_crm_product_id" ("crm_product_id" ∷ [])
          ("characteristic_added_requires_runtime_product_id" ∷ [])
      else if not signal
      then refuse characteristic_added "insufficient_spec_change_signal" []
          ("need_lifecycle_spec_update_or_change_hint_spec_update" ∷ [])
      else allow characteristic_added "product_id_and_spec_signal_present"

  abbrev pub deltas_off : EventType → LifecycleDecision
  deltas_off et =
      refuse et "runtime_delta_events_disabled" []
        ("PARSER_ENABLE_RUNTIME_DELTA_EVENTS_or_PARSER_ENABLE_DELTA_EVENTS_off" ∷ [])

  -- `lifecycle_spec_update` of the normalized item, or the hint
  unfoldable pub has_spec_change_signal : Bool → String → Bool
  has_spec_change_signal lifecycle_spec_update change_hint =
      lifecycle_spec_update || (change_hint =s= "spec_update")

  unfoldable pub can_emit_event : EventType → CrmIdentityContext → Bool → String → LifecycleDecision
  can_emit_event product_found identity spec_update change_hint =
      allow product_found "product_found_always_safe"
  can_emit_event price_changed identity spec_update change_hint =
      if not runtime_deltas_enabled
      then deltas_off price_changed
      else if not settings.allow_price_changed_with_runtime_ids
      then refuse price_changed "price_changed_disabled_by_policy" [] []
      else needs_listing price_changed "price_changed_requires_runtime_listing_id"
          identity.crm_listing_id
  can_emit_event out_of_stock identity spec_update change_hint =
      if not runtime_deltas_enabled
      then deltas_off out_of_stock
      else if not settings.allow_out_of_stock_with_runtime_ids
      then refuse out_of_stock "out_of_stock_disabled_by_policy" [] []
      else needs_listing out_of_stock "out_of_stock_requires_runtime_listing_id"
          identity.crm_listing_id
  can_emit_event characteristic_added identity spec_update change_hint =
      if not runtime_deltas_enabled
      then deltas_off characteristic_added
      else if not settings.allow_characteristic_added_with_runtime_ids
      then refuse characteristic_added "characteristic_added_disabled_by_policy" [] []
      else needs_product (has_spec_change_signal spec_update change_hint) identity.crm_product_id

  -- The event that is asked for, by the caller or by the hint.
  unfoldable pub requested_type : Option String → String → EventType
  requested_type none change_hint = infer_requested_event_type change_hint
  requested_type (some text) change_hint =
      let s = strip_end (strip_start text) in
      if is_blank s
      then infer_requested_event_type change_hint
      else or_product_found (allowed_type s)

  abbrev pub with_default : Option String → String → String
  with_default none d = d
  with_default (some s) d = if is_blank s then d else s

  -- What a probe's answer becomes: the event itself, or `product_found` in its place.
  unfoldable pub settle_probe : LifecycleDecision → LifecycleDecision
  settle_probe probe =
      if probe.allowed
      then record {
        selected_event_type = probe.selected_event_type;
        allowed = true;
        fallback_applied = false;
        fallback_reason = none;
        required_ids = probe.required_ids;
        notes = probe.notes;
      }
      else if settings.force_product_found_fallback
      then record {
        selected_event_type = product_found;
        allowed = true;
        fallback_applied = true;
        fallback_reason = probe.fallback_reason;
        required_ids = probe.required_ids;
        notes = probe.notes ++ ("forced_product_found_fallback" ∷ []);
      }
      else record {
        selected_event_type = product_found;
        allowed = true;
        fallback_applied = true;
        fallback_reason = some (with_default probe.fallback_reason "policy_denied_delta");
        required_ids = probe.required_ids;
        notes = probe.notes ++ ("default_safe_product_found" ∷ []);
      }

  -- The choice for an event that is asked for.
  unfoldable pub choose_for : EventType → CrmIdentityContext → Bool → String → LifecycleDecision
  choose_for product_found identity spec_update change_hint =
      allow product_found "explicit_or_default_product_found"
  choose_for requested identity spec_update change_hint =
      settle_probe (can_emit_event requested identity spec_update change_hint)

  -- The rollout says whether the feature is on for the item.
  unfoldable pub choose_lifecycle_event_type :
      Bool → CrmIdentityContext → Bool → String → Option String → LifecycleDecision
  choose_lifecycle_event_type rollout identity spec_update change_hint requested_event_type =
      if not rollout
      then allow product_found "lifecycle_delta_events_disabled_by_rollout"
      else choose_for (requested_type requested_event_type change_hint) identity spec_update
          change_hint

unfoldable pub should_fallback_to_product_found : LifecycleDecision → Bool
should_fallback_to_product_found decision = decision.fallback_applied
