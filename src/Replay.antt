-- ===== src/Replay.antt =====
-- The replay policy and the builder of the CRM's events: application/lifecycle/replay_policy.py,
-- delta_downgrade.py, idempotency.py and lifecycle_builder.py, with domain/crm_replay.py. The item's
-- entity key and the hash of its payload are arguments.
pub mod Laws
mod Tests
use doxx.Base.{String, Bool, true, false, not, ◌&&◌, ◌||◌, Option, none, some, ◌=s=◌, if◌then◌else◌}
use doxx.Fingerprint.{strip_start, strip_end, is_blank}
use doxx.Lifecycle.{
  EventType, product_found, price_changed, out_of_stock, characteristic_added, Policy,
  CrmIdentityContext, LifecycleDecision, clean_id, given, choose_lifecycle_event_type,
}

pub data ReplayMode : Type 0 where
  snapshot_upsert delta_if_possible reconcile_only : ReplayMode

pub data IdempotencyScope : Type 0 where
  entity_payload entity_only event_only : IdempotencyScope

pub record ReplayDecision : Type 0 where
  pub replay_mode : ReplayMode
  pub idempotency_scope : IdempotencyScope
  pub request_idempotency_key : String
  pub selected_event_type : EventType
  pub fallback_to_product_found : Bool
  pub reason : Option String
  pub safe_to_resend : Bool

-- What the policy reads of config/settings.py.
pub record ReplaySettings : Type 0 where
  pub replay_mode_default : String
  pub idempotency_scope_default : String
  pub allow_safe_resend_product_found : Bool
  pub allow_safe_resend_delta_events : Bool

-- Of the ids that an earlier answer gave; no ids at all are two missing ones.
pub record RuntimeIds : Type 0 where
  pub crm_listing_id : Option String
  pub crm_product_id : Option String

-- Python's `str.lower`, concatenation, and the first characters of a SHA-256 digest in hexadecimal.
pub record KeyOps : Type 0 where
  pub str_lower : String → String
  pub concat : String → String → String
  pub digest : String → String

-- Of a `ParserLifecycleEvent`.
pub record LifecycleEvent : Type 0 where
  pub event_type : EventType
  pub request_idempotency_key : String
  pub replay_mode : ReplayMode
  pub original_intent_event_type : Option EventType

abbrev pub strip : String → String
strip s = strip_end (strip_start s)

abbrev pub event_name : EventType → String
event_name product_found = "product_found"
event_name price_changed = "price_changed"
event_name out_of_stock = "out_of_stock"
event_name characteristic_added = "characteristic_added"

abbrev pub is_delta : EventType → Bool
is_delta product_found = false
is_delta _ = true

abbrev pub is_reconcile_only : ReplayMode → Bool
is_reconcile_only reconcile_only = true
is_reconcile_only _ = false

abbrev pub is_delta_if_possible : ReplayMode → Bool
is_delta_if_possible delta_if_possible = true
is_delta_if_possible _ = false

-- `_has_trusted_runtime_ids` and `_has_listing`
unfoldable pub has_listing : RuntimeIds → Bool
has_listing ids = given (clean_id ids.crm_listing_id)

module _ (py : KeyOps) (settings : ReplaySettings) where
  unfoldable pub parse_replay_mode : ReplayMode
  parse_replay_mode =
      let m = py.str_lower (strip settings.replay_mode_default) in
      if m =s= "delta_if_possible"
      then delta_if_possible
      else if m =s= "reconcile_only"
      then reconcile_only
      else snapshot_upsert

  unfoldable pub parse_idempotency_scope : IdempotencyScope
  parse_idempotency_scope =
      let s = py.str_lower (strip settings.idempotency_scope_default) in
      if s =s= "entity_only"
      then entity_only
      else if s =s= "event_only"
      then event_only
      else entity_payload

  -- The texts of the key, joined by a bar.
  abbrev pub joined : String → String → String
  joined a b = py.concat a (py.concat "|" b)

  -- None is the ValueError of the scope `event_only`.
  unfoldable pub build_request_idempotency_key :
      String → String → EventType → IdempotencyScope → Option String
  build_request_idempotency_key entity_key payload_hash et entity_only =
      some
        (py.concat "idemp:v1:entity_only:" (py.digest (joined (strip entity_key) (event_name et))))
  build_request_idempotency_key entity_key payload_hash et entity_payload = some (
      py.concat "idemp:v1:entity_payload:"
        (py.digest (joined (strip entity_key) (joined (strip payload_hash) (event_name et)))))
  build_request_idempotency_key entity_key payload_hash et event_only = none

  unfoldable pub is_replay_safe_event_type : EventType → Bool
  is_replay_safe_event_type et = not (is_delta et) || settings.allow_safe_resend_delta_events

  unfoldable pub can_safely_resend : EventType → RuntimeIds → Bool
  can_safely_resend et ids =
      if not (is_delta et)
      then settings.allow_safe_resend_product_found
      else if settings.allow_safe_resend_delta_events && is_replay_safe_event_type et
      then has_listing ids
      else false

  unfoldable pub should_downgrade_replay_to_product_found : EventType → RuntimeIds → Bool
  should_downgrade_replay_to_product_found et ids =
      if not (is_delta et)
      then false
      else if is_replay_safe_event_type et && settings.allow_safe_resend_delta_events
      then false
      else not (has_listing ids)

  abbrev pub decide : EventType → RuntimeIds → String → ReplayDecision
  decide et ids key =
      let mode = parse_replay_mode in
      let falls_back =
        is_delta et
        && not (is_replay_safe_event_type et)
        && is_delta_if_possible mode
        && not (has_listing ids) in
      record {
        replay_mode = if falls_back then snapshot_upsert else mode;
        idempotency_scope = parse_idempotency_scope;
        request_idempotency_key = key;
        selected_event_type = et;
        fallback_to_product_found = falls_back;
        reason = if falls_back then some "delta_requires_runtime_ids" else none;
        safe_to_resend = can_safely_resend et ids;
      }

  abbrev pub with_key : EventType → RuntimeIds → Option String → Option ReplayDecision
  with_key et ids none = none
  with_key et ids (some key) = some (decide et ids key)

  -- With the entity key and the hash of the payload.
  unfoldable pub choose_replay_mode :
      String → String → EventType → RuntimeIds → Option ReplayDecision
  choose_replay_mode entity_key payload_hash et ids =
      with_key et ids
        (build_request_idempotency_key entity_key payload_hash et parse_idempotency_scope)

  unfoldable pub should_downgrade_delta_event_to_product_found :
      EventType → RuntimeIds → ReplayMode → Bool
  should_downgrade_delta_event_to_product_found et ids mode =
      if not (is_delta et)
      then false
      else if has_listing ids
      then false
      else if should_downgrade_replay_to_product_found et ids
      then true
      else is_reconcile_only mode

  -- The event of a decision, with the type that was meant where it was downgraded.
  abbrev pub event_of : ReplayDecision → Option EventType → LifecycleEvent
  event_of rd original = record {
    event_type = rd.selected_event_type;
    request_idempotency_key = rd.request_idempotency_key;
    replay_mode = rd.replay_mode;
    original_intent_event_type = original;
  }

  abbrev pub event_or_error : Option EventType → Option ReplayDecision → Option LifecycleEvent
  event_or_error original none = none
  event_or_error original (some rd) = some (event_of rd original)

  -- The end of the builder, from the decisions for what was meant and for `product_found`.
  abbrev pub downgraded :
      EventType → RuntimeIds → Option ReplayDecision → Option ReplayDecision → Option LifecycleEvent
  downgraded intent ids none again = none
  downgraded intent ids (some rd) again =
      if should_downgrade_delta_event_to_product_found intent ids rd.replay_mode
      then event_or_error (some intent) again
      else some (event_of rd none)

  unfoldable pub build_for : String → String → EventType → RuntimeIds → Option LifecycleEvent
  build_for entity_key payload_hash intent ids =
      downgraded intent ids (choose_replay_mode entity_key payload_hash intent ids)
        (choose_replay_mode entity_key payload_hash product_found ids)

  module _ (policy : Policy) where
    -- `build_identity_context`, of what the policy reads.
    abbrev pub identity_of : RuntimeIds → CrmIdentityContext
    identity_of ids = record {
      crm_listing_id = clean_id ids.crm_listing_id;
      crm_product_id = clean_id ids.crm_product_id;
    }

    unfoldable pub build_lifecycle_event :
        Bool
        → String
        → String
        → RuntimeIds
        → Bool
        → String
        → Option String
        → Option LifecycleEvent × LifecycleDecision
    build_lifecycle_event rollout entity_key payload_hash ids spec_update change_hint requested =
        let decision =
          choose_lifecycle_event_type policy rollout (identity_of ids) spec_update change_hint
            requested in
        (build_for entity_key payload_hash decision.selected_event_type ids, decision)
