-- ===== src/Access/Middlewares.antt =====
-- The middlewares that try a request again: `AccessAwareRateLimitMiddleware` of
-- infrastructure/middlewares/ratelimit_middleware.py and `ExponentialRetryMiddleware` of
-- infrastructure/middlewares/retry_middleware.py, without the metrics, the log and the headers.
-- Times are milliseconds.
use doxx.Base.{
  ℕ, ◌+◌, ◌*◌, ◌/◌, ◌^◌, max, min, String, Bool, true, false, ◌&&◌, ◌||◌, not, Option, none, some,
  List, [], ◌∷◌, length, leb, ltb, ◌==◌, if◌then◌else◌,
}
use doxx.Access.{
  Signal, Store, Thresholds, Meta, mobile_redirect, is_shell, should_escalate_to_browser,
  should_escalate_to_proxy, build_request_meta,
}
use doxx.Access.Backoff.{
  Engine, RateLimitHeaderSnapshot, BackoffDecision, supports_status, classify,
}

-- What a middleware's `process_response` returns: the response, or a request to be made instead.
pub data Answer : Type 0 where
  respond : Answer
  try_again : Meta → Answer

-- A response, as the detectors and the clock show it.
pub record Seen : Type 0 where
  pub status : ℕ
  pub signal : Option Signal
  pub captcha_related : Bool
  pub headers : RateLimitHeaderSnapshot
  pub elapsed : Option ℕ

-- A write into `request.meta`: of a key that the layer reads, or of any other.
pub data Write : Type 0 where
  write_retry_times write_prior_failures write_shell_strikes write_mw_retry write_captcha_attempts :
      ℕ → Write
  write_playwright : Bool → Write
  write_other : String → String → Write

-- Of a `CaptchaSolveResult`, the request to be made instead and the entries of `extra_meta`.
pub record Solved : Type 0 where
  pub retry_request : Option Meta
  pub extra_meta : List Write

-- The settings, the feature flags of the store, the captcha solver, Scrapy's own retry, and the
-- median of Python's statistics.
pub record Access : Type 0 where
  pub store : Store
  pub limits : Thresholds
  pub engine : Engine
  pub spider_supports : Bool
  pub captcha_hooks : Bool
  pub max_solve_attempts : ℕ
  pub explicit_backoff : Bool
  pub enforce_backoff : Bool
  pub header_intelligence : Bool
  pub default_delay : ℕ
  pub solve : Seen → Meta → Solved
  pub scrapy_retry : Meta → Option Meta
  pub median : List ℕ → ℕ

-- The delays and the last response times of a domain.
pub record Domain : Type 0 where
  pub response_times : List ℕ
  pub download_delay : Option ℕ

module _ (a : Access) where
  abbrev pub delay_of : Domain → ℕ
  delay_of d = elim d.download_delay [ none ↦ a.default_delay | some delay ↦ delay ]

  -- `deque(maxlen=10)`, the newest first
  abbrev pub append_time : ℕ → Domain → List ℕ
  append_time elapsed d = doxx.Base.take 10 (elapsed ∷ d.response_times)

  -- The delay after a response that took more than three times the median.
  abbrev pub slowed : ℕ → ℕ
  slowed delay = min (delay * 3 / 2) 30_000

  unfoldable pub record_time : Option ℕ → Domain → Domain
  record_time none d = d
  record_time (some elapsed) d =
      let times = append_time elapsed d in
      if leb 3 (length times) && ltb (3 * a.median times) elapsed
      then record { response_times = times; download_delay = some (slowed (delay_of d)) }
      else record d { response_times = times }

  -- `_record_explicit_backoff_decision`
  unfoldable pub backoff_decision : Seen → ℕ → Option BackoffDecision
  backoff_decision seen prior_failures =
      if a.explicit_backoff && supports_status seen.status
      then some (
          classify a.engine seen.status prior_failures (
            if a.header_intelligence
            then seen.headers
            else record { remaining = none; reset_wait = none; retry_after = none }))
      else none

  abbrev pub cool_down : Option BackoffDecision → Domain → Domain
  cool_down none d = d
  cool_down (some decision) d =
      if a.enforce_backoff && ltb 0 decision.cooldown
      then record d { download_delay = some (max (delay_of d) decision.cooldown) }
      else d

  -- The delays of the domain after a response.
  unfoldable pub adapt_delay : Seen → Meta → Domain → Domain
  adapt_delay seen m d =
      cool_down (backoff_decision seen m.prior_failures) (record_time seen.elapsed d)

  abbrev pub write : Write → Meta → Meta
  write (write_retry_times n) m = record m { retry_times = n }
  write (write_prior_failures n) m = record m { prior_failures = n }
  write (write_shell_strikes n) m = record m { shell_strikes = n }
  write (write_mw_retry n) m = record m { mw_retry = n }
  write (write_captcha_attempts n) m = record m { captcha_attempts = n }
  write (write_playwright b) m = record m { playwright = b }
  write (write_other key value) m = m

  -- `for k, v in (result.extra_meta or {}).items()`
  unfoldable pub write_all : List Write → Meta → Meta
  write_all [] m = m
  write_all (w ∷ ws) m = write_all ws (write w m)

  -- The attempts are counted first, and `extra_meta` is written over what is there.
  abbrev pub counted : Meta → List Write → Option Meta → Option Meta
  counted m extra none = none
  counted m extra (some again) =
      some (write_all extra (record again { captcha_attempts = m.captcha_attempts + 1 }))

  -- The request that a solver returns instead.
  unfoldable pub run_captcha_solver : Seen → Meta → Option Meta
  run_captcha_solver seen m =
      let result = a.solve seen m in
      if not seen.captcha_related
      then none
      else if leb a.max_solve_attempts m.captcha_attempts
      then none
      else counted m result.extra_meta result.retry_request

  unfoldable pub retry_with_access : ℕ → Bool → Bool → Option Signal → ℕ → ℕ → Meta → Meta
  retry_with_access prior force_browser force_proxy signal strikes mw_round m =
      build_request_meta a.store a.limits prior force_browser force_proxy signal a.spider_supports
        (record m {
          retry_times = m.retry_times + 1;
          prior_failures = prior;
          shell_strikes = strikes;
          mw_retry = mw_round;
        })

  -- The rounds of the middleware itself.
  unfoldable pub escalate : Option Signal → Meta → Answer
  escalate signal m =
      let round = m.mw_retry + 1 in
      let prior = m.prior_failures in
      let strikes = if is_shell signal then m.shell_strikes + 1 else m.shell_strikes in
      let shell_fail = if is_shell signal then strikes else prior + 1 in
      if leb 8 m.mw_retry
      then respond
      else if should_escalate_to_browser a.store a.limits signal shell_fail a.spider_supports
      then try_again (retry_with_access (prior + 1) true false signal 0 round m)
      else if should_escalate_to_proxy a.store a.limits signal (prior + 1)
      then try_again (retry_with_access (prior + 1) false true signal strikes round m)
      else if is_shell signal && ltb strikes a.limits.shell_escalate_after
      then try_again (retry_with_access prior false false signal strikes round m)
      else respond

  abbrev pub is_banned : Option Signal → Bool
  is_banned none = false
  is_banned (some mobile_redirect) = false
  is_banned (some _) = true

  abbrev pub or_escalate : Option Signal → Meta → Option Meta → Answer
  or_escalate signal m none = escalate signal m
  or_escalate signal m (some again) = try_again again

  unfoldable pub process_response : Seen → Meta → Answer
  process_response seen m =
      if not (is_banned seen.signal)
      then respond
      else or_escalate seen.signal m (if a.captcha_hooks then run_captcha_solver seen m else none)

  -- `RETRY_HTTP_CODES`
  abbrev pub is_retry_code : ℕ → Bool
  is_retry_code s = s == 429 || s == 503 || s == 520 || s == 521 || s == 522

  abbrev pub is_blocked : Option BackoffDecision → Bool
  is_blocked none = false
  is_blocked (some decision) = not decision.retry_allowed

  abbrev pub or_respond : Option Meta → Answer
  or_respond none = respond
  or_respond (some again) = try_again again

  -- `ExponentialRetryMiddleware.process_response`
  unfoldable pub retry_response : Bool → Seen → Meta → Answer
  retry_response dont_retry seen m =
      let decision = backoff_decision seen m.retry_times in
      if dont_retry || not (is_retry_code seen.status)
      then respond
      else if leb 5 m.retry_times
      then respond
      else if a.enforce_backoff && is_blocked decision
      then respond
      else or_respond (a.scrapy_retry m)
