-- ===== src/Access/Cooldown.antt =====
-- The delays of a domain, and the bounds of the engine's decisions.
use doxx.Base.{
  ℕ, ◌≤◌, ◌≡◌, true, not, ◌&&◌, Option, none, some, List, [], ◌∷◌, arith, Ensures, if_cases,
  if◌then◌else◌, ◌==◌, ◌⊎◌,
}
use doxx.Access.{Meta}
use doxx.Access.Backoff.{
  Engine, RateLimitHeaderSnapshot, BackoffDecision, supports_status, classify, classify_429,
  exp_wait,
}
use doxx.Access.Middlewares.{
  Access, Seen, Domain, delay_of, record_time, backoff_decision, cool_down, adapt_delay,
}

exp_wait-max : (engine : Engine) (n : ℕ) → exp_wait engine n ≤ engine.max_wait
unfolding exp_wait
exp_wait-max engine n = ground arith

-- On every status: the cooldown has its limit, the wait has its own unless the response is a 429,
-- and what may be tried again is what the engine supports, less a 403.
pub classify_bounds :
    (engine : Engine) (status prior_failures : ℕ) (snapshot : RateLimitHeaderSnapshot)
    → let d = classify engine status prior_failures snapshot in
      (d.cooldown ≤ engine.cooldown_max)
      × (status ≡ 429 ⊎ (d.wait ≤ engine.max_wait))
      × (d.retry_allowed ≡ (supports_status status && not (status == 403)))
unfolding classify classify_429 supports_status
classify_bounds engine status prior_failures snapshot =
    let longest = exp_wait-max engine prior_failures in ground (arith, longest)

-- A 429 that says when to come back is not tried earlier, where that is respected, and never
-- earlier than the exponential wait.
pub classify_429-waits :
    (engine : Engine) (prior_failures wait : ℕ) (snapshot : RateLimitHeaderSnapshot)
    → engine.respect_retry_after ≡ true
    → snapshot.retry_after ≡ some wait
    → let d = classify engine 429 prior_failures snapshot in
      (wait ≤ d.wait) × (exp_wait engine prior_failures ≤ d.wait)
unfolding classify classify_429 supports_status
classify_429-waits engine prior_failures wait snapshot respected given = ground arith

module _ (a : Access) where
  abbrev IsShort : BackoffDecision → Type 0
  IsShort decision = decision.cooldown ≤ a.engine.cooldown_max

  backoff_decision-IsShort :
      (seen : Seen) (prior_failures : ℕ) → Ensures IsShort (backoff_decision a seen prior_failures)
  unfolding backoff_decision
  backoff_decision-IsShort seen prior_failures =
      if_cases (Ensures IsShort) (a.explicit_backoff && supports_status seen.status)
        (λ t. (classify_bounds a.engine seen.status prior_failures _).0) (λ f. tt)

  cool_down-delay :
      (decision : Option BackoffDecision) (d : Domain) (limit : ℕ)
      → a.engine.cooldown_max ≤ limit
      → Ensures IsShort decision
      → delay_of a d ≤ limit
      → delay_of a (cool_down a decision d) ≤ limit
  cool_down-delay none d limit longest short low = low
  cool_down-delay (some decision) d limit longest short low = ground arith

  record_time-delay :
      (elapsed : Option ℕ) (d : Domain) (limit : ℕ)
      → 30_000 ≤ limit
      → delay_of a d ≤ limit
      → delay_of a (record_time a elapsed d) ≤ limit
  unfolding record_time
  record_time-delay elapsed d limit half low = ground arith

  adapt_delay-low :
      (seen : Seen) (m : Meta) (d : Domain) (limit : ℕ)
      → 30_000 ≤ limit
      → a.engine.cooldown_max ≤ limit
      → delay_of a d ≤ limit
      → delay_of a (adapt_delay a seen m d) ≤ limit
  unfolding adapt_delay
  adapt_delay-low seen m d limit half longest low =
      cool_down-delay (backoff_decision a seen m.prior_failures) (record_time a seen.elapsed d)
        limit longest (backoff_decision-IsShort seen m.prior_failures)
        (record_time-delay seen.elapsed d limit half low)

  -- The domain after a sequence of responses.
  abbrev pub adapt_all : List (Seen × Meta) → Domain → Domain
  adapt_all [] d = d
  adapt_all ((seen, m) ∷ later) d = adapt_all later (adapt_delay a seen m d)

  adapt_all-low :
      (responses : List (Seen × Meta)) (d : Domain) (limit : ℕ)
      → 30_000 ≤ limit
      → a.engine.cooldown_max ≤ limit
      → delay_of a d ≤ limit
      → delay_of a (adapt_all responses d) ≤ limit
  adapt_all-low [] d limit half longest low = low
  adapt_all-low ((seen, m) ∷ later) d limit half longest low =
      adapt_all-low later (adapt_delay a seen m d) limit half longest
        (adapt_delay-low seen m d limit half longest low)

  -- The cooldown of a decision, where decisions are enforced.
  abbrev pub enforced_cooldown : BackoffDecision → ℕ
  enforced_cooldown decision = if a.enforce_backoff then decision.cooldown else 0

  cool_down-waits :
      (decision : Option BackoffDecision) (d : Domain)
      → Ensures (λ r. enforced_cooldown r ≤ delay_of a (cool_down a decision d)) decision
  cool_down-waits none d = tt
  cool_down-waits (some decision) d = ground arith

  -- However many responses a domain has given, in any order and for any requests, its delay stays
  -- within every limit that is at least half a minute, the longest cooldown of the engine and the
  -- delay at the start; and right after a response for which a cooldown is decided and enforced, the
  -- delay is at least that cooldown, also if the response was slow.
  pub adapt_delay-IsWithin :
      (before : List (Seen × Meta)) (seen : Seen) (m : Meta) (d : Domain) (limit : ℕ)
      → 30_000 ≤ limit
      → a.engine.cooldown_max ≤ limit
      → delay_of a d ≤ limit
      → let d' = adapt_delay a seen m (adapt_all before d) in
        (delay_of a d' ≤ limit)
        × Ensures
            (λ decision. enforced_cooldown decision ≤ delay_of a d')
            (backoff_decision a seen m.prior_failures)
  unfolding adapt_delay
  adapt_delay-IsWithin before seen m d limit half longest low =
      let d0 = adapt_all before d in
      (
        adapt_delay-low seen m d0 limit half longest
            (adapt_all-low before d limit half longest low),
        cool_down-waits (backoff_decision a seen m.prior_failures) (record_time a seen.elapsed d0),
      )
