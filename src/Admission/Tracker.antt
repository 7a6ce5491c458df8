-- ===== src/Admission/Tracker.antt =====
-- The counters of infrastructure/performance/resource_tracker.py, per store. Each operation holds
-- the module's lock, so it is one step.
use doxx.Base.{ℕ, ◌+◌, ◌-◌, String, Option, List, [], ◌∷◌, ◌=s=◌, if◌then◌else◌}
use doxx.Admission.{Limits, Totals, RuntimeResourceState, Purpose, listing, product, store_key}

-- A `defaultdict(int)`: a missing store counts nothing.
abbrev pub Counter : Type 0
Counter = List (String × ℕ)

abbrev pub count : String → Counter → ℕ
count st [] = 0
count st ((k, n) ∷ rest) = let other = count st rest in if k =s= st then n else other

-- `d[st] += 1`
abbrev pub bump : String → Counter → Counter
bump st [] = (st, 1) ∷ []
bump st ((k, n) ∷ rest) =
    let other = bump st rest in if k =s= st then (k, n + 1) ∷ rest else (k, n) ∷ other

-- `d[st] = max(0, d[st] - 1)`
abbrev pub lower : String → Counter → Counter
lower st [] = (st, 0) ∷ []
lower st ((k, n) ∷ rest) =
    let other = lower st rest in if k =s= st then (k, n - 1) ∷ rest else (k, n) ∷ other

abbrev pub assign : String → ℕ → Counter → Counter
assign st m [] = (st, m) ∷ []
assign st m ((k, n) ∷ rest) =
    let other = assign st m rest in if k =s= st then (k, m) ∷ rest else (k, n) ∷ other

abbrev pub sum : Counter → ℕ
sum [] = 0
sum ((k, n) ∷ rest) = n + sum rest

pub record Tracker : Type 0 where
  pub inflight_total : Counter
  pub inflight_listing : Counter
  pub inflight_product : Counter
  pub inflight_batches : Counter
  pub retryable_queue : Counter
  pub browser_pages : Counter
  pub proxy_requests : Counter

unfoldable reset_resource_tracker_for_tests : Tracker → Tracker
reset_resource_tracker_for_tests t = record {
  inflight_total = [];
  inflight_listing = [];
  inflight_product = [];
  inflight_batches = [];
  retryable_queue = [];
  browser_pages = [];
  proxy_requests = [];
}

unfoldable pub totals_of : Tracker → Totals
totals_of t = record {
  requests = sum t.inflight_total;
  browser_pages = sum t.browser_pages;
  proxy_requests = sum t.proxy_requests;
  batches = sum t.inflight_batches;
}

unfoldable pub build_runtime_state : Option ℕ → String → Tracker → RuntimeResourceState
build_runtime_state memory store_name t =
    let st = store_key store_name in
    record {
      inflight_requests = count st t.inflight_total;
      inflight_listing_requests = count st t.inflight_listing;
      inflight_product_requests = count st t.inflight_product;
      inflight_batches = count st t.inflight_batches;
      queued_retryable_items = count st t.retryable_queue;
      active_browser_pages = count st t.browser_pages;
      active_proxy_requests = count st t.proxy_requests;
      memory_mb = memory;
    }

-- The counters of one request: `listing`, `api` and any other purpose count as a listing.
abbrev pub raise_request : String → Purpose → Tracker → Tracker
raise_request st listing t = record t {
  inflight_total = bump st t.inflight_total;
  inflight_listing = bump st t.inflight_listing;
}
raise_request st product t = record t {
  inflight_total = bump st t.inflight_total;
  inflight_product = bump st t.inflight_product;
}

abbrev pub lower_request : String → Purpose → Tracker → Tracker
lower_request st listing t = record t {
  inflight_total = lower st t.inflight_total;
  inflight_listing = lower st t.inflight_listing;
}
lower_request st product t = record t {
  inflight_total = lower st t.inflight_total;
  inflight_product = lower st t.inflight_product;
}

module _ (settings : Limits) where
  unfoldable pub increment_inflight_request : String → Purpose → Tracker → Tracker
  increment_inflight_request store_name purpose t =
      if settings.enable_resource_governance
      then raise_request (store_key store_name) purpose t
      else t

  unfoldable pub decrement_inflight_request : String → Purpose → Tracker → Tracker
  decrement_inflight_request store_name purpose t =
      if settings.enable_resource_governance
      then lower_request (store_key store_name) purpose t
      else t

  unfoldable pub increment_inflight_batch : String → Tracker → Tracker
  increment_inflight_batch store_name t =
      if settings.enable_resource_governance
      then record t { inflight_batches = bump (store_key store_name) t.inflight_batches }
      else t

  unfoldable pub decrement_inflight_batch : String → Tracker → Tracker
  decrement_inflight_batch store_name t =
      if settings.enable_resource_governance
      then record t { inflight_batches = lower (store_key store_name) t.inflight_batches }
      else t

  unfoldable pub increment_browser_pages : String → Tracker → Tracker
  increment_browser_pages store_name t =
      if settings.enable_resource_governance
      then record t { browser_pages = bump (store_key store_name) t.browser_pages }
      else t

  unfoldable pub decrement_browser_pages : String → Tracker → Tracker
  decrement_browser_pages store_name t =
      if settings.enable_resource_governance
      then record t { browser_pages = lower (store_key store_name) t.browser_pages }
      else t

  unfoldable pub increment_proxy_requests : String → Tracker → Tracker
  increment_proxy_requests store_name t =
      if settings.enable_resource_governance
      then record t { proxy_requests = bump (store_key store_name) t.proxy_requests }
      else t

  unfoldable pub decrement_proxy_requests : String → Tracker → Tracker
  decrement_proxy_requests store_name t =
      if settings.enable_resource_governance
      then record t { proxy_requests = lower (store_key store_name) t.proxy_requests }
      else t

  unfoldable pub set_retryable_queue_size : String → ℕ → Tracker → Tracker
  set_retryable_queue_size store_name size t =
      if settings.enable_resource_governance
      then record t { retryable_queue = assign (store_key store_name) size t.retryable_queue }
      else t
