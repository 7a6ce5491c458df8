-- ===== src/Admission/Within.antt =====
-- What raises and lowers the counters keeps the totals within the limits.
use doxx.Base.{
  ℕ, ◌+◌, ◌≤◌, ◌<◌, ◌≡◌, refl, String, true, false, not, ◌||◌, Option, List, [], ◌∷◌, ◌=s=◌, arith,
  Bool-cases, Option-cases, inl, inr,
}
use doxx.Admission.{Limits, StoreResourceBudget, Purpose, listing, product, store_key}
use doxx.Admission.Tracker.{
  Counter, bump, lower, sum, Tracker, increment_inflight_request, decrement_inflight_request,
  increment_browser_pages, decrement_browser_pages, increment_proxy_requests,
  decrement_proxy_requests,
}
use doxx.Admission.Requests.{Meta, raise_mode, lower_mode, release_request_governance_counters}

sum-bump : (st : String) (d : Counter) → sum (bump st d) ≡ sum d + 1
sum-bump st [] = refl
sum-bump st ((k, n) ∷ d) = ground (arith, sum-bump st d)

sum-lower : (st : String) (d : Counter) → sum (lower st d) ≤ sum d
sum-lower st [] = omega arith
sum-lower st ((k, n) ∷ d) = ground (arith, sum-lower st d)

-- The totals are within the limits of the settings.
pub record IsWithin (settings : Limits) (t : Tracker) : Type 0 where
  pub requests : sum t.inflight_total ≤ settings.global_max_concurrent_requests
  pub pages : sum t.browser_pages ≤ settings.global_max_browser_pages
  pub proxies : sum t.proxy_requests ≤ settings.global_max_proxy_requests

-- The settings have all the limits on.
pub record IsGoverned (settings : Limits) : Type 0 where
  pub governance : settings.enable_resource_governance ≡ true
  pub budgets : settings.enable_store_resource_budgets ≡ true
  pub browsers : settings.enable_browser_budgets ≡ true
  pub proxies : settings.enable_proxy_budgets ≡ true

-- Counters that differ by at most the request that is counted.
pub increment-IsWithin :
    (settings : Limits) (st : String) (purpose : Purpose) (t : Tracker)
    → sum t.inflight_total < settings.global_max_concurrent_requests
    → IsWithin settings t
    → let t' = increment_inflight_request settings st purpose t in
      IsWithin settings t'
      × (t'.browser_pages ≡ t.browser_pages)
      × (t'.proxy_requests ≡ t.proxy_requests)
unfolding increment_inflight_request
increment-IsWithin settings st listing t room w =
    let total = sum-bump (store_key st) t.inflight_total in
    (
      record {
        requests = ground (arith, w.requests, room, total);
        pages = ground (arith, w.pages);
        proxies = ground (arith, w.proxies);
      },
      ground arith,
      ground arith,
    )
increment-IsWithin settings st product t room w =
    let total = sum-bump (store_key st) t.inflight_total in
    (
      record {
        requests = ground (arith, w.requests, room, total);
        pages = ground (arith, w.pages);
        proxies = ground (arith, w.proxies);
      },
      ground arith,
      ground arith,
    )

pub raise_mode-IsWithin :
    (settings : Limits) (st selected : String) (t : Tracker)
    → IsWithin settings t
    → ((selected =s= "browser") ≡ true → sum t.browser_pages < settings.global_max_browser_pages)
    → ((selected =s= "browser") ≡ false
        → (selected =s= "proxy") ≡ true
        → sum t.proxy_requests < settings.global_max_proxy_requests)
    → IsWithin settings (raise_mode settings st selected t)
unfolding raise_mode increment_browser_pages increment_proxy_requests
raise_mode-IsWithin settings st selected t w pages proxies =
    let more_pages = sum-bump (store_key st) t.browser_pages in
    let more_proxies = sum-bump (store_key st) t.proxy_requests in
    record {
      requests = ground (arith, w.requests);
      pages = ground (arith, w.pages, more_pages, pages);
      proxies = ground (arith, w.proxies, more_proxies, proxies);
    }

-- What is handed back never adds to a total.
lower_mode-IsWithin :
    (settings : Limits) (st selected : String) (t : Tracker)
    → IsWithin settings t
    → IsWithin settings (lower_mode settings st selected t)
unfolding lower_mode decrement_browser_pages decrement_proxy_requests
lower_mode-IsWithin settings st selected t w =
    let pages = sum-lower (store_key st) t.browser_pages in
    let proxies = sum-lower (store_key st) t.proxy_requests in
    record {
      requests = ground (arith, w.requests);
      pages = ground (arith, w.pages, pages);
      proxies = ground (arith, w.proxies, proxies);
    }

decrement-IsWithin :
    (settings : Limits) (st : String) (purpose : Purpose) (t : Tracker)
    → IsWithin settings t
    → IsWithin settings (decrement_inflight_request settings st purpose t)
unfolding decrement_inflight_request
decrement-IsWithin settings st purpose t w =
    let total = sum-lower (store_key st) t.inflight_total in
    record {
      requests = ground (arith, w.requests, total);
      pages = ground (arith, w.pages);
      proxies = ground (arith, w.proxies);
    }

pub release-IsWithin :
    (str_lower : String → String) (settings : Limits) (bypass_stores : List String)
    (get_store_budget : String → StoreResourceBudget) (memory : Option ℕ) (m : Meta)
    (store_name : String) (t : Tracker)
    → IsWithin settings t
    → IsWithin settings (
        release_request_governance_counters str_lower settings bypass_stores get_store_budget memory
          m store_name t)
unfolding release_request_governance_counters
release-IsWithin str_lower settings bypass_stores get_store_budget memory m store_name t w =
    elim (Option-cases m.resource_gov) [
      | inl e ↦ rw e w
      | inr (gov, e) ↦ elim (Bool-cases (not settings.enable_resource_governance || gov.bypass)) [
        | inl off ↦ rw (e, off) w
        | inr on ↦
            rw (e, on)
              (lower_mode-IsWithin settings (store_key store_name) (str_lower gov.mode) _
                (decrement-IsWithin settings (store_key store_name) gov.purpose t w))
      ]
    ]
