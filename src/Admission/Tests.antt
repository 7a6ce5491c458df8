-- ===== src/Admission/Tests.antt =====
-- One store with room for two requests and one browser page.
use doxx.Base.{◌≡◌, refl, String, true, false, none, some, []}
use doxx.Admission.{
  Limits, Totals, StoreResourceBudget, RuntimeResourceState, listing, browser,
  decide_request_admission, decide_browser_admission, cap, purpose_refusal, mode_decision,
  store_key,
}
use doxx.Admission.Requests.{Meta, schedule_request}
use doxx.Admission.Tracker.{Tracker}
use doxx.Admission.Within.{IsWithin, IsGoverned}
use doxx.Admission.Traffic.{here, next, schedule, empty_tracker, Traffic-IsWithin}

abbrev limits : Limits
limits = record {
  enable_resource_governance = true;
  enable_store_resource_budgets = true;
  enable_browser_budgets = true;
  enable_proxy_budgets = true;
  enable_backpressure_policy = true;
  global_max_concurrent_requests = 16;
  global_max_inflight_batches = 4;
  global_max_browser_pages = 1;
  global_max_proxy_requests = 8;
  global_max_retryable_queue = 200;
  global_max_memory_mb = 512;
  backpressure_memory_warning_mb = 384;
  backpressure_memory_critical_mb = 512;
  backpressure_retryable_queue_warning = 100;
  backpressure_retryable_queue_critical = 200;
  backpressure_batch_inflight_warning = 3;
  backpressure_batch_inflight_critical = 4;
}

abbrev budget : StoreResourceBudget
budget = record {
  max_concurrent_requests = 2;
  max_listing_requests = 2;
  max_product_requests = 2;
  max_batch_inflight = 2;
  max_retryable_queue = 80;
  max_browser_pages = 1;
  max_proxy_requests = 1;
}

abbrev one_budget : String → StoreResourceBudget
one_budget store_name = budget

abbrev idle : RuntimeResourceState
idle = record {
  inflight_requests = 0;
  inflight_listing_requests = 0;
  inflight_product_requests = 0;
  inflight_batches = 0;
  queued_retryable_items = 0;
  active_browser_pages = 0;
  active_proxy_requests = 0;
  memory_mb = some 100;
}

abbrev nothing : Totals
nothing = record { requests = 0; browser_pages = 0; proxy_requests = 0; batches = 0 }

page_admitted :
    (decide_request_admission limits nothing "uzum" listing browser idle budget).allowed ≡ true
unfolding decide_request_admission decide_browser_admission cap purpose_refusal mode_decision
    store_key
page_admitted = refl

limits-IsGoverned : IsGoverned limits
limits-IsGoverned = record { governance = refl; budgets = refl; browsers = refl; proxies = refl }

-- A text that is in lower case already.
abbrev same_text : String → String
same_text s = s

abbrev page : Meta
page = record {
  access_mode_selected = "browser";
  playwright = true;
  proxy_set = false;
  resource_gov_bypass = false;
  resource_gov = none;
}

-- Two browser pages are asked for; the limit is one.
abbrev two_asked : Tracker
two_asked =
    (schedule_request same_text limits [] one_budget none "uzum" "product" page
      (schedule_request same_text limits [] one_budget none "uzum" "listing" page
        empty_tracker).1).1

Traffic-IsWithin_example : IsWithin limits two_asked
Traffic-IsWithin_example = Traffic-IsWithin same_text limits [] one_budget limits-IsGoverned (
    next (next here (schedule none "uzum" "listing" page empty_tracker))
      (schedule none "uzum" "product" page _))
