-- ===== src/Admission/Bounds.antt =====
-- The limits hold: what an admitted request shows, and the totals over any sequence of requests and
-- responses.
use doxx.Base.{ℕ, ◌<◌, min, ◌≡◌, String, true, arith}
use doxx.Admission.{
  Limits, Totals, RuntimeResourceState, StoreResourceBudget, Purpose, listing, product,
  ResourceMode, http, proxy, browser, store_key, cap, decide_browser_admission,
  decide_proxy_admission, decide_request_admission, purpose_refusal, mode_decision, refused_or,
}

-- With the limits on, an admission of a browser page leaves room below both limits on pages.
decide_browser_admission-allowed :
    (settings : Limits) (totals : Totals) (st : String) (state : RuntimeResourceState)
    (budget : StoreResourceBudget)
    → settings.enable_resource_governance ≡ true
    → settings.enable_browser_budgets ≡ true
    → (decide_browser_admission settings totals st state budget).allowed ≡ true
    → (totals.browser_pages < settings.global_max_browser_pages)
      × (state.active_browser_pages
          < min budget.max_browser_pages settings.global_max_browser_pages)
unfolding decide_browser_admission cap
decide_browser_admission-allowed settings totals st state budget on budgets h = ground arith

decide_proxy_admission-allowed :
    (settings : Limits) (totals : Totals) (st : String) (state : RuntimeResourceState)
    (budget : StoreResourceBudget)
    → settings.enable_resource_governance ≡ true
    → settings.enable_proxy_budgets ≡ true
    → (decide_proxy_admission settings totals st state budget).allowed ≡ true
    → (totals.proxy_requests < settings.global_max_proxy_requests)
      × (state.active_proxy_requests
          < min budget.max_proxy_requests settings.global_max_proxy_requests)
unfolding decide_proxy_admission cap
decide_proxy_admission-allowed settings totals st state budget on budgets h = ground arith

-- What a purpose is limited by.
abbrev pub active : Purpose → RuntimeResourceState → ℕ
active listing state = state.inflight_listing_requests
active product state = state.inflight_product_requests

abbrev pub room : Purpose → StoreResourceBudget → ℕ
room listing budget = budget.max_listing_requests
room product budget = budget.max_product_requests

-- The limits that hold when a request of a mode is admitted.
abbrev pub FitsMode :
    Limits → Totals → ResourceMode → RuntimeResourceState → StoreResourceBudget → Type 0
FitsMode settings totals http state budget = Unit
FitsMode settings totals proxy state budget =
    (totals.proxy_requests < settings.global_max_proxy_requests)
    × (state.active_proxy_requests
        < min budget.max_proxy_requests settings.global_max_proxy_requests)
FitsMode settings totals browser state budget =
    (totals.browser_pages < settings.global_max_browser_pages)
    × (state.active_browser_pages < min budget.max_browser_pages settings.global_max_browser_pages)

mode_decision-allowed :
    (settings : Limits) (totals : Totals) (st : String) (mode : ResourceMode)
    (state : RuntimeResourceState) (budget : StoreResourceBudget)
    → settings.enable_resource_governance ≡ true
    → settings.enable_browser_budgets ≡ true
    → settings.enable_proxy_budgets ≡ true
    → (mode_decision settings totals st mode state budget).allowed ≡ true
    → FitsMode settings totals mode state budget
unfolding mode_decision
mode_decision-allowed settings totals st http state budget on b p h = tt
mode_decision-allowed settings totals st proxy state budget on b p h =
    decide_proxy_admission-allowed settings totals st state budget on p (ground arith)
mode_decision-allowed settings totals st browser state budget on b p h =
    decide_browser_admission-allowed settings totals st state budget on b (ground arith)

purpose_refusal-none :
    (settings : Limits) (totals : Totals) (st : String) (purpose : Purpose) (mode : ResourceMode)
    (state : RuntimeResourceState) (budget : StoreResourceBudget)
    → (refused_or
        (purpose_refusal settings totals st purpose mode state budget)
        (mode_decision settings totals st mode state budget)).allowed
      ≡ true
    → (active purpose state < room purpose budget)
      × ((mode_decision settings totals st mode state budget).allowed ≡ true)
unfolding purpose_refusal cap
purpose_refusal-none settings totals st listing mode state budget h = ground arith
purpose_refusal-none settings totals st product mode state budget h = ground arith

-- With the limits on, an admitted request finds the queue of retries below its limit, and the
-- requests of all stores, of its store and of its purpose below theirs, and if it wants a browser
-- or a proxy also those.
pub decide_request_admission-allowed :
    (settings : Limits) (totals : Totals) (store_name : String) (purpose : Purpose)
    (mode : ResourceMode) (state : RuntimeResourceState) (budget : StoreResourceBudget)
    → settings.enable_resource_governance ≡ true
    → settings.enable_browser_budgets ≡ true
    → settings.enable_proxy_budgets ≡ true
    → (decide_request_admission settings totals store_name purpose mode state budget).allowed ≡ true
    → (state.queued_retryable_items < budget.max_retryable_queue)
      × (totals.requests < settings.global_max_concurrent_requests)
      × (state.inflight_requests
          < min budget.max_concurrent_requests settings.global_max_concurrent_requests)
      × (active purpose state < room purpose budget)
      × FitsMode settings totals mode state budget
unfolding decide_request_admission cap
decide_request_admission-allowed settings totals store_name purpose mode state budget on b p h =
    let st = store_key store_name in
    let last : (refused_or (purpose_refusal settings totals st purpose mode state budget)
          (mode_decision settings totals st mode state budget)).allowed
        ≡ true =
      ground arith in
    let (by_purpose, by_mode) =
      purpose_refusal-none settings totals st purpose mode state budget last in
    (
      ground arith,
      ground arith,
      ground arith,
      by_purpose,
      mode_decision-allowed settings totals st mode state budget on b p by_mode,
    )
