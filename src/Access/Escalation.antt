-- ===== src/Access/Escalation.antt =====
-- The mode of a request that is made in the place of another.
use doxx.Base.{
  ℕ, ◌≡◌, refl, Bool, true, false, not, ◌&&◌, Option, arith, ltb, if◌then◌else◌, Bool-cases, inl,
  inr,
}
use doxx.Access.{
  Signal, Store, Thresholds, Meta, browser, proxy, build_request_meta, should_use_browser,
  should_use_proxy, should_escalate_to_browser, should_escalate_to_proxy, is_browser_required,
}
use doxx.Access.Backoff.{supports_status, classify, classify_429}
use doxx.Access.Middlewares.{
  Access, Seen, retry_with_access, retry_response, backoff_decision, is_retry_code, is_blocked,
  or_respond, respond,
}

module _ (store : Store) (limits : Thresholds) where
  escalation_needs :
      (signal : Option Signal) (failures : ℕ) (supports : Bool)
      → should_escalate_to_browser store limits signal failures supports ≡ true
      → (supports ≡ true)
        × (store.runtime_control ≡ true)
        × (store.browser_escalation ≡ true)
        × (is_browser_required store.mode ≡ false)
        × (store.supports_browser ≡ true)
  unfolding should_escalate_to_browser
  escalation_needs signal failures supports chosen = ground arith

  proxy_needs :
      (signal : Option Signal) (failures : ℕ)
      → should_escalate_to_proxy store limits signal failures ≡ true
      → (store.proxy_available ≡ true)
        × (store.proxy_disabled ≡ false)
        × (store.fallback_to_proxy ≡ true)
  unfolding should_escalate_to_proxy
  proxy_needs signal failures chosen = ground arith

module _ (a : Access) where
  -- A request that is escalated to the browser, on any failure count, is made in the browser.
  pub escalated_to_browser :
      (signal : Option Signal) (failures prior strikes round : ℕ) (m : Meta)
      → should_escalate_to_browser a.store a.limits signal failures a.spider_supports ≡ true
      → let m' = retry_with_access a prior true false signal strikes round m in
        (m'.mode_selected ≡ browser) × (m'.playwright ≡ true)
  unfolding retry_with_access build_request_meta should_use_browser
  escalated_to_browser signal failures prior strikes round m chosen =
      let (supports, control, escalation, optional, able) =
        escalation_needs a.store a.limits signal failures a.spider_supports chosen in
      ground arith

  -- A request that is escalated to a proxy goes through one, where there is one to give and the
  -- browser is neither required nor due.
  pub escalated_to_proxy :
      (signal : Option Signal) (failures prior strikes round : ℕ) (m : Meta)
      → should_escalate_to_proxy a.store a.limits signal failures ≡ true
      → a.store.proxy_given ≡ true
      → is_browser_required a.store.mode ≡ false
      → should_escalate_to_browser a.store a.limits signal prior a.spider_supports ≡ false
      → let m' = retry_with_access a prior false true signal strikes round m in
        (m'.mode_selected ≡ proxy) × (m'.has_proxy ≡ true)
  unfolding retry_with_access build_request_meta should_use_browser should_use_proxy
  escalated_to_proxy signal failures prior strikes round m chosen given optional not_due =
      let (available, enabled, fallback) = proxy_needs a.store a.limits signal failures chosen in
      ground arith

  never_blocked :
      (seen : Seen) (retry_times : ℕ)
      → is_retry_code a seen.status ≡ true
      → is_blocked a (backoff_decision a seen retry_times) ≡ false
  unfolding backoff_decision classify supports_status classify_429
  never_blocked seen retry_times again = ground arith

  -- Enforcing the explicit backoff never keeps the retry middleware from a retry, since the statuses
  -- that it retries are none that the engine refuses: the answer depends only on the status, on the
  -- request's own wish and on the number of its retries.
  pub retry_response-eq :
      (dont_retry : Bool) (seen : Seen) (m : Meta)
      → retry_response a dont_retry seen m ≡ (
          if not dont_retry && is_retry_code a seen.status && ltb m.retry_times 5
          then or_respond a (a.scrapy_retry m)
          else respond)
  unfolding retry_response
  retry_response-eq true seen m = refl
  retry_response-eq false seen m = elim (Bool-cases (is_retry_code a seen.status)) [
    | inl again ↦
        let free = never_blocked seen m.retry_times again in rw (again, free) (ground arith)
    | inr other ↦ rw other refl
  ]
