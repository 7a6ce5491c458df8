-- ===== src/Admission.antt =====
-- The limits on requests, batches, browser pages and proxies: the decisions of
-- application/performance/concurrency_policy.py with the types of domain/resource_governance.py.
-- `Tracker` is infrastructure/performance/resource_tracker.py, `Requests`
-- infrastructure/access/resource_governance.py and `Backpressure`
-- application/performance/backpressure_policy.py.
pub mod Tracker
pub mod Requests
pub mod Bounds
pub mod Within
pub mod Traffic
mod Tests
pub mod Backpressure
use doxx.Base.{
  ℕ, min, max, String, Bool, true, false, not, ◌&&◌, ◌||◌, Option, none, some, leb, ◌=s=◌,
  if◌then◌else◌,
}
use doxx.Fingerprint.{strip_start, strip_end, is_blank}

pub data ResourceMode : Type 0 where
  http : ResourceMode
  proxy : ResourceMode
  browser : ResourceMode

pub data Purpose : Type 0 where
  listing : Purpose
  product : Purpose

pub record StoreResourceBudget : Type 0 where
  pub max_concurrent_requests : ℕ
  pub max_listing_requests : ℕ
  pub max_product_requests : ℕ
  pub max_batch_inflight : ℕ
  pub max_retryable_queue : ℕ
  pub max_browser_pages : ℕ
  pub max_proxy_requests : ℕ

-- Memory is counted in one unit, here and in the settings.
pub record RuntimeResourceState : Type 0 where
  pub inflight_requests : ℕ
  pub inflight_listing_requests : ℕ
  pub inflight_product_requests : ℕ
  pub inflight_batches : ℕ
  pub queued_retryable_items : ℕ
  pub active_browser_pages : ℕ
  pub active_proxy_requests : ℕ
  pub memory_mb : Option ℕ

pub record ConcurrencyDecision : Type 0 where
  pub allowed : Bool
  pub store_name : String
  pub reason : String
  pub selected_limit : ℕ
  pub mode : ResourceMode

-- The settings that the decisions read; config/settings.py bounds each number from below by zero.
pub record Limits : Type 0 where
  pub enable_resource_governance : Bool
  pub enable_store_resource_budgets : Bool
  pub enable_browser_budgets : Bool
  pub enable_proxy_budgets : Bool
  pub enable_backpressure_policy : Bool
  pub global_max_concurrent_requests : ℕ
  pub global_max_inflight_batches : ℕ
  pub global_max_browser_pages : ℕ
  pub global_max_proxy_requests : ℕ
  pub global_max_retryable_queue : ℕ
  pub global_max_memory_mb : ℕ
  pub backpressure_memory_warning_mb : ℕ
  pub backpressure_memory_critical_mb : ℕ
  pub backpressure_retryable_queue_warning : ℕ
  pub backpressure_retryable_queue_critical : ℕ
  pub backpressure_batch_inflight_warning : ℕ
  pub backpressure_batch_inflight_critical : ℕ

-- The totals over all stores, as the four `get_global_…_total` read them.
pub record Totals : Type 0 where
  pub requests : ℕ
  pub browser_pages : ℕ
  pub proxy_requests : ℕ
  pub batches : ℕ

-- `(store_name or "").strip() or "unknown"`
unfoldable pub store_key : String → String
store_key store_name =
    let st = strip_end (strip_start store_name) in if is_blank st then "unknown" else st

unfoldable pub cap : ℕ → ℕ → ℕ
cap a b = max 0 (min a b)

abbrev pub decision : Bool → String → String → ℕ → ResourceMode → ConcurrencyDecision
decision allowed st reason limit mode = record {
  allowed = allowed;
  store_name = st;
  reason = reason;
  selected_limit = limit;
  mode = mode;
}

-- A refusal ends the tests; without one the next tests decide.
abbrev pub refused_or : Option ConcurrencyDecision → ConcurrencyDecision → ConcurrencyDecision
refused_or (some refused) next = refused
refused_or none next = next

module _ (settings : Limits) (totals : Totals) where
  unfoldable pub decide_browser_admission :
      String → RuntimeResourceState → StoreResourceBudget → ConcurrencyDecision
  decide_browser_admission store_name state budget =
      let st = store_key store_name in
      let g = settings.global_max_browser_pages in
      let limit = cap budget.max_browser_pages g in
      if not settings.enable_resource_governance || not settings.enable_browser_budgets
      then decision true st "browser_budgets_disabled" budget.max_browser_pages browser
      else if leb g totals.browser_pages
      then decision false st "global_browser_pages_cap" g browser
      else if leb limit state.active_browser_pages
      then decision false st "store_browser_pages_cap" limit browser
      else decision true st "browser_admitted" limit browser

  unfoldable pub decide_proxy_admission :
      String → RuntimeResourceState → StoreResourceBudget → ConcurrencyDecision
  decide_proxy_admission store_name state budget =
      let st = store_key store_name in
      let g = settings.global_max_proxy_requests in
      let limit = cap budget.max_proxy_requests g in
      if not settings.enable_resource_governance || not settings.enable_proxy_budgets
      then decision true st "proxy_budgets_disabled" budget.max_proxy_requests proxy
      else if leb g totals.proxy_requests
      then decision false st "global_proxy_cap" g proxy
      else if leb limit state.active_proxy_requests
      then decision false st "store_proxy_cap" limit proxy
      else decision true st "proxy_admitted" limit proxy

  unfoldable pub decide_batch_admission :
      String → RuntimeResourceState → StoreResourceBudget → ConcurrencyDecision
  decide_batch_admission store_name state budget =
      let st = store_key store_name in
      let g = settings.global_max_inflight_batches in
      let limit = cap budget.max_batch_inflight g in
      if not settings.enable_resource_governance
      then decision true st "governance_disabled" budget.max_batch_inflight http
      else if leb g totals.batches
      then decision false st "global_batch_inflight_cap" g http
      else if leb limit state.inflight_batches
      then decision false st "store_batch_inflight_cap" limit http
      else decision true st "batch_admitted" limit http

  -- The tests by purpose: the refusal, when there is one.
  unfoldable pub purpose_refusal :
      String
      → Purpose
      → ResourceMode
      → RuntimeResourceState
      → StoreResourceBudget
      → Option ConcurrencyDecision
  purpose_refusal st listing mode state budget =
      let cap_all = cap budget.max_concurrent_requests settings.global_max_concurrent_requests in
      let lim = cap budget.max_listing_requests cap_all in
      if leb lim state.inflight_listing_requests
      then some (decision false st "store_listing_concurrent_cap" lim mode)
      else none
  purpose_refusal st product mode state budget =
      let cap_all = cap budget.max_concurrent_requests settings.global_max_concurrent_requests in
      let lim = cap budget.max_product_requests cap_all in
      if leb lim state.inflight_product_requests
      then some (decision false st "store_product_concurrent_cap" lim mode)
      else none

  -- The last tests: a refusal of the browser or the proxy, or the request is admitted.
  unfoldable pub mode_decision :
      String → ResourceMode → RuntimeResourceState → StoreResourceBudget → ConcurrencyDecision
  mode_decision st http state budget =
      decision true st "admitted"
        (cap budget.max_concurrent_requests settings.global_max_concurrent_requests) http
  mode_decision st proxy state budget =
      let pr = decide_proxy_admission st state budget in
      if not pr.allowed
      then pr
      else decision true st "admitted"
          (cap budget.max_concurrent_requests settings.global_max_concurrent_requests) proxy
  mode_decision st browser state budget =
      let br = decide_browser_admission st state budget in
      if not br.allowed
      then br
      else decision true st "admitted"
          (cap budget.max_concurrent_requests settings.global_max_concurrent_requests) browser

  unfoldable pub decide_request_admission :
      String
      → Purpose
      → ResourceMode
      → RuntimeResourceState
      → StoreResourceBudget
      → ConcurrencyDecision
  decide_request_admission store_name purpose mode state budget =
      let st = store_key store_name in
      let g_total = settings.global_max_concurrent_requests in
      let cap_all = cap budget.max_concurrent_requests g_total in
      let queue_cap =
        min (min settings.backpressure_retryable_queue_critical settings.global_max_retryable_queue)
          budget.max_retryable_queue in
      if not settings.enable_resource_governance
      then decision true st "governance_disabled" budget.max_concurrent_requests mode
      else if leb queue_cap state.queued_retryable_items
      then decision false st "retryable_queue_pressure_blocks_new_requests" 0 mode
      else if leb g_total totals.requests
      then decision false st "global_concurrent_request_cap" g_total mode
      else if leb cap_all state.inflight_requests
      then decision false st "store_concurrent_request_cap" cap_all mode
      else refused_or (purpose_refusal st purpose mode state budget)
          (mode_decision st mode state budget)
