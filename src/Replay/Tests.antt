-- ===== src/Replay/Tests.antt =====
-- New characteristics of a product whose listing is not known yet.
use doxx.Base.{◌≡◌, ◌≢◌, refl, true, false, ◌&&◌, some, none, if◌then◌else◌}
use doxx.Lifecycle.{Policy, product_found}
use doxx.Replay.{
  ReplaySettings, RuntimeIds, KeyOps, entity_payload, event_only, parse_idempotency_scope,
  build_lifecycle_event,
}
use doxx.Replay.Laws.{IsBuilt, is_dropped, is_characteristic_added, build_lifecycle_event_lem}

abbrev py : KeyOps
py = record { str_lower = λ s. s; concat = λ a b. b; digest = λ s. s }

abbrev settings : ReplaySettings
settings = record {
  replay_mode_default = "snapshot_upsert";
  idempotency_scope_default = "entity_payload";
  allow_safe_resend_product_found = true;
  allow_safe_resend_delta_events = false;
}

abbrev policy : Policy
policy = record {
  default_event = "product_found";
  enable_delta_events = true;
  enable_runtime_delta_events = true;
  enable_price_changed_event = true;
  enable_out_of_stock_event = true;
  enable_characteristic_added_event = true;
  allow_price_changed_with_runtime_ids = true;
  allow_out_of_stock_with_runtime_ids = true;
  allow_characteristic_added_with_runtime_ids = true;
  force_product_found_fallback = false;
}

abbrev product_only : RuntimeIds
product_only = record { crm_listing_id = none; crm_product_id = some "p1" }

by_payload : parse_idempotency_scope py settings ≡ entity_payload
unfolding parse_idempotency_scope doxx.Fingerprint.strip_start doxx.Fingerprint.strip_end
    doxx.Fingerprint.is_space
by_payload = refl

not_by_event : parse_idempotency_scope py settings ≢ event_only
not_by_event other = absurd (cc (by_payload, other))

build_lifecycle_event_lem_example :
    let (event, d) =
      build_lifecycle_event py settings policy true "mediapark:1" "h1" product_only true
        "spec_update"
        (some "characteristic_added") in
    let chosen = d.selected_event_type in
    let dropped = is_characteristic_added chosen && is_dropped py settings chosen product_only in
    IsBuilt py settings event
      (if dropped then product_found else chosen)
      (if dropped then some chosen else none)
build_lifecycle_event_lem_example =
    build_lifecycle_event_lem py settings policy true "mediapark:1" "h1" product_only true
      "spec_update" (some "characteristic_added") not_by_event
