-- ===== src/Access/Backoff.antt =====
-- `ExplicitBackoffEngine` of infrastructure/access/backoff_engine.py, after the headers are read.
-- Times are milliseconds.
use doxx.Base.{
  ℕ, ◌*◌, ◌^◌, min, max, Bool, true, false, ◌&&◌, ◌||◌, not, Option, none, some, ◌==◌,
  if◌then◌else◌,
}

pub record RateLimitHeaderSnapshot : Type 0 where
  pub remaining : Option ℕ
  pub reset_wait : Option ℕ
  pub retry_after : Option ℕ

pub data Reason : Type 0 where
  policy_not_applicable http_403_forbidden http_408_timeout http_429_exponential
        http_429_retry_after http_429_ratelimit_reset http_500_server_error http_502_bad_gateway
        http_503_upstream_error http_504_gateway_timeout :
      Reason

-- Without the actions, which are only reported.
pub record BackoffDecision : Type 0 where
  pub reason : Reason
  pub retry_allowed : Bool
  pub wait : ℕ
  pub cooldown : ℕ

pub record Engine : Type 0 where
  pub base : ℕ
  pub max_wait : ℕ
  pub cooldown_max : ℕ
  pub respect_retry_after : Bool
  pub strict_429 : Bool

-- The numbers of `__init__` are not negative here, so only the longest wait is adjusted.
abbrev pub new_engine : ℕ → ℕ → ℕ → Bool → Bool → Engine
new_engine base longest cooldown_max respect strict = record {
  base = base;
  max_wait = max base longest;
  cooldown_max = cooldown_max;
  respect_retry_after = respect;
  strict_429 = strict;
}

unfoldable pub supports_status : ℕ → Bool
supports_status s = s == 403 || s == 408 || s == 429 || s == 500 || s == 502 || s == 503 || s == 504

module _ (engine : Engine) where
  unfoldable pub exp_wait : ℕ → ℕ
  exp_wait prior_failures = min engine.max_wait (engine.base * 2 ^ prior_failures)

  -- `max(wait_candidates)`, with a candidate only where it counts.
  abbrev pub longer : Bool → Option ℕ → ℕ → ℕ
  longer counts none wait = wait
  longer counts (some candidate) wait = if counts then max wait candidate else wait

  abbrev pub is_given : Option ℕ → Bool
  is_given none = false
  is_given (some n) = true

  abbrev pub is_zero : Option ℕ → Bool
  is_zero none = false
  is_zero (some n) = n == 0

  unfoldable pub classify_429 : ℕ → RateLimitHeaderSnapshot → BackoffDecision
  classify_429 exp_wait snapshot =
      let respected = engine.respect_retry_after && is_given snapshot.retry_after in
      let reset = is_zero snapshot.remaining && is_given snapshot.reset_wait in
      let longest =
        longer reset snapshot.reset_wait
          (longer engine.respect_retry_after snapshot.retry_after exp_wait) in
      let wait = if engine.strict_429 && longest == 0 then exp_wait else longest in
      record {
        reason =
            if respected
            then http_429_retry_after
            else if reset
            then http_429_ratelimit_reset
            else http_429_exponential;
        retry_allowed = true;
        wait = wait;
        cooldown = min engine.cooldown_max wait;
      }

  unfoldable pub classify : ℕ → ℕ → RateLimitHeaderSnapshot → BackoffDecision
  classify status prior_failures snapshot =
      let wait = exp_wait prior_failures in
      if not (supports_status status)
      then record { reason = policy_not_applicable; retry_allowed = false; wait = 0; cooldown = 0 }
      else if status == 403
      then record {
        reason = http_403_forbidden;
        retry_allowed = false;
        wait = 0;
        cooldown = min engine.cooldown_max (max wait 5_000);
      }
      else if status == 408
      then record { reason = http_408_timeout; retry_allowed = true; wait = wait; cooldown = 0 }
      else if status == 429
      then classify_429 wait snapshot
      else if status == 500
      then record {
        reason = http_500_server_error;
        retry_allowed = true;
        wait = wait;
        cooldown = 0;
      }
      else if status == 502
      then record { reason = http_502_bad_gateway; retry_allowed = true; wait = wait; cooldown = 0 }
      else if status == 503
      then record {
        reason = http_503_upstream_error;
        retry_allowed = true;
        wait = wait;
        cooldown = min engine.cooldown_max wait;
      }
      else record {
        reason = http_504_gateway_timeout;
        retry_allowed = true;
        wait = wait;
        cooldown = 0;
      }
