-- ===== src/Access.antt =====
-- The access layer: how a request reaches a shop, and what is done after its response. This file is
-- infrastructure/access/request_strategy.py, with the profile of one store, its feature flags and
-- whether there is a proxy as a record. `Backoff` is the engine of the waits, `Middlewares` the two
-- middlewares that try a request again, `Spikes` the monitor of statuses.
pub mod Backoff
pub mod Middlewares
pub mod Escalation
pub mod Chains
pub mod Cooldown
pub mod Spikes
pub mod Proxies
mod Tests
use doxx.Base.{ℕ, ◌+◌, Bool, true, false, not, ◌&&◌, ◌||◌, Option, none, some, leb, if◌then◌else◌}

pub data AccessMode : Type 0 where
  http_only http_with_proxy browser_required browser_fallback : AccessMode

pub data Signal : Type 0 where
  captcha cloudflare_challenge access_denied js_shell empty_shell transport_like_error_page
        mobile_redirect :
      Signal

-- Of a `StoreAccessProfile` and of what else depends on the store alone: the two feature flags,
-- `is_proxy_available`, and whether `build_proxy_meta` gives a proxy.
pub record Store : Type 0 where
  pub mode : AccessMode
  pub requires_proxy : Bool
  pub supports_browser : Bool
  pub is_ban_signal : Signal → Bool
  pub fallback_to_browser : Bool
  pub fallback_to_proxy : Bool
  pub proxy_disabled : Bool
  pub runtime_control : Bool
  pub browser_escalation : Bool
  pub proxy_available : Bool
  pub proxy_given : Bool

pub record Thresholds : Type 0 where
  pub proxy_fallback_failures : ℕ
  pub shell_escalate_after : ℕ
  pub browser_fallback_failures : ℕ

-- The mode that is reported with a request.
pub data Selected : Type 0 where
  plain proxy browser : Selected

-- What the layer reads and writes in `request.meta`; a missing number is 0, a missing flag false.
pub record Meta : Type 0 where
  pub retry_times : ℕ
  pub prior_failures : ℕ
  pub shell_strikes : ℕ
  pub mw_retry : ℕ
  pub captcha_attempts : ℕ
  pub has_proxy : Bool
  pub playwright : Bool
  pub mode_selected : Selected

abbrev pub is_http_only : AccessMode → Bool
is_http_only http_only = true
is_http_only _ = false

abbrev pub is_http_with_proxy : AccessMode → Bool
is_http_with_proxy http_with_proxy = true
is_http_with_proxy _ = false

abbrev pub is_browser_required : AccessMode → Bool
is_browser_required browser_required = true
is_browser_required _ = false

abbrev pub is_challenge : Option Signal → Bool
is_challenge (some cloudflare_challenge) = true
is_challenge _ = false

-- `js_shell` and `empty_shell`
abbrev pub is_shell : Option Signal → Bool
is_shell (some js_shell) = true
is_shell (some empty_shell) = true
is_shell _ = false

abbrev pub is_proxy_signal : Option Signal → Bool
is_proxy_signal (some access_denied) = true
is_proxy_signal (some transport_like_error_page) = true
is_proxy_signal (some empty_shell) = true
is_proxy_signal (some captcha) = true
is_proxy_signal _ = false

module _ (store : Store) (limits : Thresholds) where
  abbrev pub is_ban : Option Signal → Bool
  is_ban none = false
  is_ban (some s) = store.is_ban_signal s

  unfoldable pub should_use_proxy : ℕ → Bool → Bool
  should_use_proxy prior force_proxy =
      if store.proxy_disabled
      then false
      else if force_proxy
      then store.proxy_available && (store.fallback_to_proxy || store.requires_proxy)
      else if store.requires_proxy
      then store.proxy_available
      else if is_http_with_proxy store.mode && leb limits.proxy_fallback_failures prior
      then store.proxy_available
      else false

  unfoldable pub should_escalate_to_browser : Option Signal → ℕ → Bool → Bool
  should_escalate_to_browser signal failures spider_supports =
      if not spider_supports
      then false
      else if not store.runtime_control
      then false
      else if not store.browser_escalation
      then false
      else if is_http_only store.mode
      then false
      else if not store.supports_browser
      then false
      else if is_browser_required store.mode
      then false
      else if not store.fallback_to_browser
      then false
      else if is_challenge signal && leb 1 failures
      then true
      else if (is_shell signal || is_challenge signal) && leb limits.shell_escalate_after failures
      then true
      else is_ban signal && leb limits.browser_fallback_failures failures

  unfoldable pub should_escalate_to_proxy : Option Signal → ℕ → Bool
  should_escalate_to_proxy signal failures =
      if not store.proxy_available
      then false
      else if store.proxy_disabled
      then false
      else if is_http_only store.mode
      then false
      else if not store.fallback_to_proxy && not store.requires_proxy
      then false
      else if store.requires_proxy
      then false
      else if is_proxy_signal signal && leb limits.proxy_fallback_failures failures
      then true
      else is_http_with_proxy store.mode && leb 1 failures

  unfoldable pub should_use_browser : ℕ → Option Signal → Bool → Bool → Bool
  should_use_browser prior signal force_browser spider_supports =
      if not store.runtime_control
      then spider_supports && is_browser_required store.mode
      else if not store.browser_escalation
      then spider_supports && is_browser_required store.mode
      else if is_browser_required store.mode
      then spider_supports
      else if force_browser && spider_supports && store.supports_browser
      then true
      else if is_http_only store.mode
      then false
      else if not store.supports_browser
      then false
      else should_escalate_to_browser signal prior spider_supports

  abbrev pub with_browser : Meta → Meta
  with_browser m = record m {
    playwright = m.playwright || store.supports_browser || is_browser_required store.mode;
    mode_selected = browser;
  }

  abbrev pub with_proxy : Meta → Meta
  with_proxy m =
      if store.proxy_given
      then record m { has_proxy = true; mode_selected = proxy }
      else record m { mode_selected = plain }

  abbrev pub without_either : Meta → Meta
  without_either m = record m { mode_selected = plain }

  -- `build_request_meta` without a target, and the update of a request's meta by what it gives: a key
  -- that it does not give stays as it is.
  unfoldable pub build_request_meta : ℕ → Bool → Bool → Option Signal → Bool → Meta → Meta
  build_request_meta prior force_browser force_proxy signal spider_supports m =
      let use_browser = should_use_browser prior signal force_browser spider_supports in
      let use_proxy = should_use_proxy prior force_proxy in
      if is_browser_required store.mode
      then if spider_supports then with_browser m else without_either m
      else if use_browser && spider_supports
      then with_browser m
      else if use_proxy
          || (store.requires_proxy && not store.proxy_disabled && store.proxy_available)
      then with_proxy m
      else without_either m
