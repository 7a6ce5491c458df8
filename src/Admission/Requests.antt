-- ===== src/Admission/Requests.antt =====
-- A request under the limits: infrastructure/access/resource_governance.py, which the spiders call
-- before a request is scheduled and when its response has been handled.
use doxx.Base.{
  ℕ, zero, suc, String, Bool, true, false, not, ◌&&◌, ◌||◌, Option, none, some, List, [], ◌∷◌,
  ◌=s=◌, if◌then◌else◌,
}
use doxx.Fingerprint.{strip_start, strip_end, is_blank}
use doxx.Admission.{
  Limits, StoreResourceBudget, Purpose, listing, product, ResourceMode, http, proxy, browser,
  store_key, decide_browser_admission, decide_proxy_admission, decide_request_admission,
}
use doxx.Admission.Tracker.{
  Tracker, totals_of, build_runtime_state, increment_inflight_request, decrement_inflight_request,
  increment_browser_pages, decrement_browser_pages, increment_proxy_requests,
  decrement_proxy_requests,
}

-- `meta["_resource_gov"]`, without `bypass` when that is false
pub record Recorded : Type 0 where
  pub purpose : Purpose
  pub mode : String
  pub bypass : Bool

-- The keys of a request's `meta` that the limits read or write. A missing `access_mode_selected`
-- is "plain", which is how it is read.
pub record Meta : Type 0 where
  pub access_mode_selected : String
  pub playwright : Bool
  pub proxy_set : Bool
  pub resource_gov_bypass : Bool
  pub resource_gov : Option Recorded

unfoldable pub strip_browser_from_meta : Meta → Meta
strip_browser_from_meta meta = record meta { playwright = false; access_mode_selected = "plain" }

unfoldable pub strip_proxy_from_meta : Meta → Meta
strip_proxy_from_meta meta =
    let selected =
      if meta.access_mode_selected =s= "proxy" then "plain" else meta.access_mode_selected in
    record meta { proxy_set = false; access_mode_selected = selected }

module _ (settings : Limits) where
  -- The counter of the mode, up or down.
  unfoldable pub raise_mode : String → String → Tracker → Tracker
  raise_mode st selected t =
      if selected =s= "browser"
      then increment_browser_pages settings st t
      else if selected =s= "proxy"
      then increment_proxy_requests settings st t
      else t

  unfoldable pub lower_mode : String → String → Tracker → Tracker
  lower_mode st selected t =
      if selected =s= "browser"
      then decrement_browser_pages settings st t
      else if selected =s= "proxy"
      then decrement_proxy_requests settings st t
      else t

-- `str.lower`, the settings with `SCRAPY_RESOURCE_GOV_BYPASS_STORES`, the budgets of
-- config/store_resource_budgets.py and the memory that the process uses
module _ (str_lower : String → String) (settings : Limits) (bypass_stores : List String)
    (get_store_budget : String → StoreResourceBudget) (memory : Option ℕ) where
  unfoldable pub meta_to_resource_mode : Meta → ResourceMode
  meta_to_resource_mode meta =
      let m = str_lower meta.access_mode_selected in
      if m =s= "browser" then browser else if m =s= "proxy" then proxy else http

  unfoldable pub purpose_to_literal : String → Purpose
  purpose_to_literal purpose = if str_lower purpose =s= "product" then product else listing

  unfoldable pub is_listed : String → List String → Bool
  is_listed st [] = false
  is_listed st (v ∷ vs) =
      let text = strip_end (strip_start v) in
      (not (is_blank text) && (str_lower text =s= st)) || is_listed st vs

  unfoldable pub is_store_bypassed : String → Bool
  is_store_bypassed store_name =
      let st = str_lower (strip_end (strip_start store_name)) in
      if is_blank st then false else is_listed st bypass_stores

  -- A round of the loop that gives up a browser or a proxy over its budget: the new `meta` when
  -- the loop continues.
  unfoldable pub downgraded : String → Tracker → Meta → Option Meta
  downgraded store_name t meta =
      let st = store_key store_name in
      let budget = get_store_budget store_name in
      let state = build_runtime_state memory st t in
      elim (meta_to_resource_mode meta) [
        | browser ↦
            if settings.enable_browser_budgets
              && not (decide_browser_admission settings (totals_of t) st state budget).allowed
            then some (strip_browser_from_meta meta)
            else none
        | proxy ↦
            if settings.enable_proxy_budgets
              && not (decide_proxy_admission settings (totals_of t) st state budget).allowed
            then some (strip_proxy_from_meta meta)
            else none
        | http ↦ none
      ]

  -- `for _ in range(rounds)`
  unfoldable pub downgrade : ℕ → String → Tracker → Meta → Meta
  downgrade zero store_name t meta = meta
  downgrade (suc rounds) store_name t meta = elim (downgraded store_name t meta) [
    | none ↦ meta
    | some cheaper ↦ downgrade rounds store_name t cheaper
  ]

  unfoldable pub apply_governance_to_request_meta : String → String → Meta → Tracker → Meta × Bool
  apply_governance_to_request_meta store_name purpose meta t =
      let st = store_key store_name in
      let cheaper = downgrade 3 store_name t meta in
      if not settings.enable_resource_governance || not settings.enable_store_resource_budgets
      then (meta, true)
      else if is_store_bypassed st
      then (record meta { resource_gov_bypass = true }, true)
      else (
        cheaper,
        (decide_request_admission settings (totals_of t) st (purpose_to_literal purpose)
            (meta_to_resource_mode cheaper) (build_runtime_state memory st t)
            (get_store_budget store_name)).allowed,
      )

  unfoldable pub record_request_scheduled_governance :
      String → String → Meta → Tracker → Meta × Tracker
  record_request_scheduled_governance store_name purpose meta t =
      let st = store_key store_name in
      let plit = purpose_to_literal purpose in
      let sel = str_lower meta.access_mode_selected in
      let recorded : Recorded = record {
        purpose = plit;
        mode = sel;
        bypass = meta.resource_gov_bypass;
      } in
      if not settings.enable_resource_governance
      then (meta, t)
      else if meta.resource_gov_bypass
      then (record meta { resource_gov = some recorded }, t)
      else (
        record meta { resource_gov = some recorded },
        raise_mode settings st sel (increment_inflight_request settings st plit t),
      )

  unfoldable pub release_request_governance_counters : Meta → String → Tracker → Tracker
  release_request_governance_counters meta store_name t =
      let st = store_key store_name in
      elim meta.resource_gov [
        | none ↦ t
        | some gov ↦
            if not settings.enable_resource_governance || gov.bypass
            then t
            else lower_mode settings st (str_lower gov.mode)
                (decrement_inflight_request settings st gov.purpose t)
      ]

  -- What `schedule_safe_request` of a spider does with the counters: a request that is not admitted
  -- is not scheduled.
  unfoldable pub schedule_request : String → String → Meta → Tracker → Meta × Tracker × Bool
  schedule_request store_name purpose meta t =
      let (m, admitted) = apply_governance_to_request_meta store_name purpose meta t in
      let (m', t') = record_request_scheduled_governance store_name purpose m t in
      if admitted then (m', t', true) else (m, t, false)
