-- ===== src/Admission/Traffic.antt =====
-- Requests and responses of all spiders in any order: the totals never pass the limits.
use doxx.Base.{
  ℕ, ◌<◌, ◌≡◌, String, true, false, not, ◌||◌, Option, List, [], ◌=s=◌, arith, Bool-cases, inl, inr,
}
use doxx.Admission.{
  Limits, StoreResourceBudget, proxy, browser, store_key, decide_request_admission,
}
use doxx.Admission.Tracker.{sum, Tracker, totals_of, build_runtime_state}
use doxx.Admission.Requests.{
  Meta, meta_to_resource_mode, is_store_bypassed, downgrade, apply_governance_to_request_meta,
  purpose_to_literal, record_request_scheduled_governance, release_request_governance_counters,
  schedule_request,
}
use doxx.Admission.Bounds.{FitsMode, decide_request_admission-allowed}
use doxx.Admission.Within.{
  IsWithin, IsGoverned, increment-IsWithin, raise_mode-IsWithin, release-IsWithin,
}

module _ (str_lower : String → String) (settings : Limits) (bypass_stores : List String)
    (get_store_budget : String → StoreResourceBudget) (memory : Option ℕ) where
  -- What a request needs that is counted.
  HasRoom : Meta → Tracker → Type 0
  HasRoom m t =
      (sum t.inflight_total < settings.global_max_concurrent_requests)
      × ((str_lower m.access_mode_selected =s= "browser") ≡ true
          → sum t.browser_pages < settings.global_max_browser_pages)
      × ((str_lower m.access_mode_selected =s= "browser") ≡ false
          → (str_lower m.access_mode_selected =s= "proxy") ≡ true
          → sum t.proxy_requests < settings.global_max_proxy_requests)

  record-IsWithin :
      (store_name purpose : String) (m : Meta) (t : Tracker)
      → IsWithin settings t
      → (m.resource_gov_bypass ≡ false → HasRoom m t)
      → IsWithin settings
          (record_request_scheduled_governance str_lower settings bypass_stores get_store_budget
            memory store_name purpose m t).1
  unfolding record_request_scheduled_governance HasRoom
  record-IsWithin store_name purpose m t w room =
      elim (Bool-cases (not settings.enable_resource_governance)) [
        | inl off ↦ rw off w
        | inr on ↦ elim (Bool-cases m.resource_gov_bypass) [
          | inl skip ↦ rw (on, skip) w
          | inr counted ↦
              let (total, pages, proxies) = room counted in
              let plit =
                purpose_to_literal str_lower settings bypass_stores get_store_budget memory
                  purpose in
              let (w', same_pages, same_proxies) =
                increment-IsWithin settings (store_key store_name) plit t total w in
              rw (on, counted)
                (raise_mode-IsWithin settings (store_key store_name)
                  (str_lower m.access_mode_selected) _ w' (λ b. rw same_pages (pages b))
                  (λ b p. rw same_proxies (proxies b p)))
        ]
      ]

  -- An admitted request of a store that is not bypassed has room.
  admitted-HasRoom :
      (store_name purpose : String) (m : Meta) (t : Tracker)
      → IsGoverned settings
      → (decide_request_admission settings
          (totals_of t)
          (store_key store_name)
          (purpose_to_literal str_lower settings bypass_stores get_store_budget memory purpose)
          (meta_to_resource_mode str_lower settings bypass_stores get_store_budget memory m)
          (build_runtime_state memory (store_key store_name) t)
          (get_store_budget store_name)).allowed
        ≡ true
      → HasRoom m t
  unfolding HasRoom meta_to_resource_mode totals_of
  admitted-HasRoom store_name purpose m t g h =
      let (_, total, _, _, mode) =
        decide_request_admission-allowed settings (totals_of t) (store_key store_name) _ _ _ _
          g.governance g.browsers g.proxies h in
      (
        total,
        (λ b.
            let fits : FitsMode settings (totals_of t) browser
                (build_runtime_state memory (store_key store_name) t)
                (get_store_budget store_name) =
              rw b at mode in
            fits.0),
        (λ b p.
            let fits : FitsMode settings (totals_of t) proxy
                (build_runtime_state memory (store_key store_name) t)
                (get_store_budget store_name) =
              rw (b, p) at mode in
            fits.0),
      )

  applied-HasRoom :
      (store_name purpose : String) (m : Meta) (t : Tracker)
      → IsGoverned settings
      → let applied =
          apply_governance_to_request_meta str_lower settings bypass_stores get_store_budget memory
            store_name purpose m t in
        applied.1 ≡ true → applied.0.resource_gov_bypass ≡ false → HasRoom applied.0 t
  unfolding apply_governance_to_request_meta
  applied-HasRoom store_name purpose m t g admitted counted =
      let on : (not settings.enable_resource_governance
            || not settings.enable_store_resource_budgets)
          ≡ false =
        ground (arith, g.governance, g.budgets) in
      elim (Bool-cases (
        is_store_bypassed str_lower settings bypass_stores get_store_budget memory
          (store_key store_name))) [
            | inl skip ↦ let bad : true ≡ false = rw (on, skip) at counted in cc bad
            | inr kept ↦
                rw (on, kept)
                  (admitted-HasRoom store_name purpose
                    (downgrade str_lower settings bypass_stores get_store_budget memory 3 store_name
                      t m)
                    t g (rw (on, kept) at admitted))
          ]

  -- Scheduling a request, admitted or not, keeps the totals within the limits.
  schedule-IsWithin :
      (store_name purpose : String) (m : Meta) (t : Tracker)
      → IsGoverned settings
      → IsWithin settings t
      → IsWithin settings
          (schedule_request str_lower settings bypass_stores get_store_budget memory store_name
            purpose m t).1
  unfolding schedule_request
  schedule-IsWithin store_name purpose m t g w =
      let applied =
        apply_governance_to_request_meta str_lower settings bypass_stores get_store_budget memory
          store_name purpose m t in
      elim (Bool-cases applied.1) [
        | inr refused ↦ rw refused w
        | inl admitted ↦ rw admitted (
            record-IsWithin store_name purpose applied.0 t w
              (applied-HasRoom store_name purpose m t g admitted))
      ]

-- A spider schedules a request, or hands back the counters of one. The process's memory may be
-- another each time.
pub data Move (str_lower : String → String) (settings : Limits) (bypass_stores : List String)
    (get_store_budget : String → StoreResourceBudget) : Tracker → Tracker → Type 0 where
  schedule :
      (memory : Option ℕ) (store_name purpose : String) (m : Meta) (t : Tracker)
      → Move str_lower settings bypass_stores get_store_budget t
          (schedule_request str_lower settings bypass_stores get_store_budget memory store_name
            purpose m t).1
  release :
      (memory : Option ℕ) (m : Meta) (store_name : String) (t : Tracker)
      → Move str_lower settings bypass_stores get_store_budget t (
          release_request_governance_counters str_lower settings bypass_stores get_store_budget
            memory m store_name t)

pub data Traffic (str_lower : String → String) (settings : Limits) (bypass_stores : List String)
    (get_store_budget : String → StoreResourceBudget) (start : Tracker) : Tracker → Type 0 where
  here : Traffic str_lower settings bypass_stores get_store_budget start start
  next :
      {t u : Tracker}
      → Traffic str_lower settings bypass_stores get_store_budget start t
      → Move str_lower settings bypass_stores get_store_budget t u
      → Traffic str_lower settings bypass_stores get_store_budget start u

abbrev pub empty_tracker : Tracker
empty_tracker = record {
  inflight_total = [];
  inflight_listing = [];
  inflight_product = [];
  inflight_batches = [];
  retryable_queue = [];
  browser_pages = [];
  proxy_requests = [];
}

-- With all limits on, whatever requests the spiders schedule and hand back, in any order and
-- whatever their `meta` holds, the requests, browser pages and proxies counted over all stores
-- never pass the global limits.
pub Traffic-IsWithin :
    (str_lower : String → String) (settings : Limits) (bypass_stores : List String)
    (get_store_budget : String → StoreResourceBudget)
    → IsGoverned settings
    → {t : Tracker} → Traffic str_lower settings bypass_stores get_store_budget empty_tracker t
    → IsWithin settings t
Traffic-IsWithin str_lower settings bypass_stores get_store_budget g here = record {
  requests = omega arith;
  pages = omega arith;
  proxies = omega arith;
}
Traffic-IsWithin str_lower settings bypass_stores get_store_budget g
      (next before (schedule memory store_name purpose m t)) =
    schedule-IsWithin str_lower settings bypass_stores get_store_budget memory store_name purpose m
      t g (Traffic-IsWithin str_lower settings bypass_stores get_store_budget g before)
Traffic-IsWithin str_lower settings bypass_stores get_store_budget g
      (next before (release memory m store_name t)) =
    release-IsWithin str_lower settings bypass_stores get_store_budget memory m store_name t
      (Traffic-IsWithin str_lower settings bypass_stores get_store_budget g before)
