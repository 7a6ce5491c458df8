-- ===== src/Lifecycle/Tests.antt =====
-- A change of price that is asked for, with and without the listing's id.
use doxx.Base.{◌≡◌, true, false, not, none, some, if◌then◌else◌}
use doxx.Lifecycle.{
  product_found, Policy, CrmIdentityContext, can_emit_event, requested_type,
  choose_lifecycle_event_type,
}
use doxx.Lifecycle.Safety.{MaySend, DeltasOn, choose_lifecycle_event_type_lem}

abbrev policy : Policy
policy = record {
  default_event = "product_found";
  enable_delta_events = true;
  enable_runtime_delta_events = true;
  enable_price_changed_event = true;
  enable_out_of_stock_event = true;
  enable_characteristic_added_event = true;
  allow_price_changed_with_runtime_ids = true;
  allow_out_of_stock_with_runtime_ids = true;
  allow_characteristic_added_with_runtime_ids = true;
  force_product_found_fallback = true;
}

abbrev listed : CrmIdentityContext
listed = record { crm_listing_id = some "17"; crm_product_id = none }

abbrev unlisted : CrmIdentityContext
unlisted = record { crm_listing_id = none; crm_product_id = none }

choose_lifecycle_event_type_lem_example :
    let d = choose_lifecycle_event_type policy true unlisted false "price_update" none in
    let requested = requested_type policy none "price_update" in
    let ok = (can_emit_event policy requested unlisted false "price_update").allowed in
    (d.allowed ≡ true)
    × (d.selected_event_type ≡ (if ok then requested else product_found))
    × (d.fallback_applied ≡ not ok)
    × DeltasOn policy d.selected_event_type
    × MaySend policy unlisted false "price_update" d.selected_event_type
choose_lifecycle_event_type_lem_example =
    choose_lifecycle_event_type_lem policy true unlisted false "price_update" none
