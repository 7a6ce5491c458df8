-- ===== src/Admission/Backpressure.antt =====
-- The advice of application/performance/backpressure_policy.py: when to slow down, and when to
-- lower a limit.
use doxx.Base.{
  ℕ, ◌-◌, ◌<◌, min, max, ◌≡◌, ◌↔◌, String, Bool, true, false, not, Option, none, some, leb,
  if◌then◌else◌, arith,
}
use doxx.Admission.{
  Limits, RuntimeResourceState, StoreResourceBudget, ResourceMode, http, proxy, browser, store_key,
}

pub data Severity : Type 0 where
  warning : Severity
  high : Severity
  critical : Severity

pub data Action : Type 0 where
  slow_down : Action
  pause_batches : Action
  reduce_browser : Action
  reduce_proxy : Action
  degrade_store : Action

pub record BackpressureDecision : Type 0 where
  pub apply_backpressure : Bool
  pub store_name : String
  pub reason : String
  pub severity : Severity
  pub suggested_action : Action

pub record ResourceThrottleDecision : Type 0 where
  pub throttle : Bool
  pub store_name : String
  pub mode : ResourceMode
  pub new_limit : Option ℕ
  pub reason : String

abbrev pub advice : Bool → String → String → Severity → Action → BackpressureDecision
advice apply st reason severity action = record {
  apply_backpressure = apply;
  store_name = st;
  reason = reason;
  severity = severity;
  suggested_action = action;
}

-- `mem is not None and mem >= limit`
abbrev pub memory_reaches : Option ℕ → ℕ → Bool
memory_reaches none limit = false
memory_reaches (some mem) limit = leb limit mem

unfoldable pub decide_backpressure :
    Limits → String → RuntimeResourceState → StoreResourceBudget → BackpressureDecision
decide_backpressure settings store_name state budget =
    let st = store_key store_name in
    let rq_crit = settings.backpressure_retryable_queue_critical in
    let mem_crit = settings.backpressure_memory_critical_mb in
    if not settings.enable_backpressure_policy
    then advice false st "backpressure_disabled" warning slow_down
    else if memory_reaches state.memory_mb (min mem_crit settings.global_max_memory_mb)
    then advice true st "memory_critical" critical degrade_store
    else if leb (min rq_crit budget.max_retryable_queue) state.queued_retryable_items
    then advice true st "retryable_queue_critical" critical pause_batches
    else if leb settings.backpressure_retryable_queue_warning state.queued_retryable_items
    then advice true st "retryable_queue_elevated" high slow_down
    else if leb settings.backpressure_batch_inflight_critical state.inflight_batches
    then advice true st "batch_inflight_critical" critical pause_batches
    else if leb settings.backpressure_batch_inflight_warning state.inflight_batches
    then advice true st "batch_inflight_elevated" warning slow_down
    else if memory_reaches state.memory_mb settings.backpressure_memory_warning_mb
    then advice true st "memory_warning" warning reduce_browser
    else advice false st "nominal" warning slow_down

unfoldable pub decide_throttle_adjustment :
    Limits → String → RuntimeResourceState → StoreResourceBudget → ResourceThrottleDecision
decide_throttle_adjustment settings store_name state budget =
    let st = store_key store_name in
    let pages = min budget.max_browser_pages settings.global_max_browser_pages in
    let proxies = min budget.max_proxy_requests settings.global_max_proxy_requests in
    if not settings.enable_resource_governance
    then record {
      throttle = false;
      store_name = st;
      mode = http;
      new_limit = none;
      reason = "governance_disabled";
    }
    else if leb pages state.active_browser_pages
    then record {
      throttle = true;
      store_name = st;
      mode = browser;
      new_limit = some (max 0 (pages - 1));
      reason = "browser_pages_saturated";
    }
    else if leb proxies state.active_proxy_requests
    then record {
      throttle = true;
      store_name = st;
      mode = proxy;
      new_limit = some (max 0 (proxies - 1));
      reason = "proxy_requests_saturated";
    }
    else record {
      throttle = false;
      store_name = st;
      mode = http;
      new_limit = none;
      reason = "no_throttle";
    }

-- Memory that was read stays below a limit.
abbrev pub StaysBelow : Option ℕ → ℕ → Type 0
StaysBelow none limit = Unit
StaysBelow (some mem) limit = mem < limit

-- With the policy on, no backpressure is advised exactly when the queue of retries, the batches on
-- their way and the memory that was read are all below their limits, those for warnings and the
-- critical ones.
pub decide_backpressure-nominal :
    (settings : Limits) (store_name : String) (state : RuntimeResourceState)
    (budget : StoreResourceBudget)
    → settings.enable_backpressure_policy ≡ true
    → ((decide_backpressure settings store_name state budget).apply_backpressure ≡ false) ↔ (
        (state.queued_retryable_items
          < min settings.backpressure_retryable_queue_warning
              (min settings.backpressure_retryable_queue_critical budget.max_retryable_queue))
        × (state.inflight_batches
            < min settings.backpressure_batch_inflight_warning
                settings.backpressure_batch_inflight_critical)
        × StaysBelow state.memory_mb (
            min settings.backpressure_memory_warning_mb
              (min settings.backpressure_memory_critical_mb settings.global_max_memory_mb)))
unfolding decide_backpressure
decide_backpressure-nominal settings store_name state budget on = ground arith
