-- ===== src/Access/Tests.antt =====
-- A shop behind a challenge, and one that asks for a pause.
use doxx.Base.{
  ℕ, ◌+◌, ◌≤◌, ◌≡◌, refl, arith, true, false, not, ◌&&◌, Option, none, some, List, [], ◌∷◌, All,
  Ensures, max, ltb, ◌==◌, if◌then◌else◌,
}
use doxx.Access.{
  Store, Thresholds, Meta, browser_fallback, captcha, cloudflare_challenge, plain, browser,
  should_escalate_to_browser, should_use_browser, build_request_meta,
}
use doxx.Access.Backoff.{Engine, RateLimitHeaderSnapshot, new_engine, classify, supports_status}
use doxx.Access.Middlewares.{
  Access, Seen, Domain, respond, try_again, delay_of, adapt_delay, backoff_decision,
  retry_with_access, process_response, escalate, retry_response, or_respond, is_retry_code,
  write_other, write_playwright, Solved, run_captcha_solver, write_all,
}
use doxx.Access.Chains.{is_counter, Tried, first, escalated, retried, tries_end}
use doxx.Access.Escalation.{escalated_to_browser, retry_response-eq}
use doxx.Access.Cooldown.{adapt_all, enforced_cooldown, adapt_delay-IsWithin}
use doxx.Access.Spikes.{
  new_entry, record_http_status, recent, Recorded, nothing, recorded, record_http_status_lem,
}

abbrev shop : Store
shop = record {
  mode = browser_fallback;
  requires_proxy = false;
  supports_browser = true;
  is_ban_signal = λ s. true;
  fallback_to_browser = true;
  fallback_to_proxy = true;
  proxy_disabled = false;
  runtime_control = true;
  browser_escalation = true;
  proxy_available = false;
  proxy_given = false;
}

abbrev limits : Thresholds
limits = record {
  proxy_fallback_failures = 2;
  shell_escalate_after = 2;
  browser_fallback_failures = 3;
}

abbrev engine : Engine
engine = new_engine 1_000 90_000 300_000 true true

abbrev median : List ℕ → ℕ
median [] = 0
median (t ∷ times) = 100

abbrev more_retries : Meta → Option Meta
more_retries m = some (record m { retry_times = m.retry_times + 1 })

-- The solver sends the request again, with its token and a note for itself.
abbrev try_token : Seen → Meta → Solved
try_token seen m = record {
  retry_request = some (record m { prior_failures = 0 });
  extra_meta = write_other "captcha_provider" "test" ∷ write_playwright true ∷ [];
}

abbrev access : Access
access = record {
  store = shop;
  limits = limits;
  engine = engine;
  spider_supports = true;
  captcha_hooks = true;
  max_solve_attempts = 1;
  explicit_backoff = true;
  enforce_backoff = true;
  header_intelligence = true;
  default_delay = 1_000;
  solve = try_token;
  scrapy_retry = more_retries;
  median = median;
}

abbrev fresh : Meta
fresh = record {
  retry_times = 0;
  prior_failures = 0;
  shell_strikes = 0;
  mw_retry = 0;
  captcha_attempts = 0;
  has_proxy = false;
  playwright = false;
  mode_selected = plain;
}

abbrev no_hints : RateLimitHeaderSnapshot
no_hints = record { remaining = none; reset_wait = none; retry_after = none }

abbrev challenge : Seen
challenge = record {
  status = 200;
  signal = some cloudflare_challenge;
  captcha_related = false;
  headers = no_hints;
  elapsed = none;
}

abbrev unavailable : Seen
unavailable = record challenge { status = 503; signal = none }

abbrev asks_captcha : Seen
asks_captcha = record challenge { signal = some captcha; captcha_related = true }

abbrev in_browser : Meta
in_browser = retry_with_access access 1 true false (some cloudflare_challenge) 0 1 fresh

abbrev with_token : Meta
with_token = record in_browser { prior_failures = 0; captcha_attempts = 1; playwright = true }

challenged : process_response access challenge fresh ≡ try_again in_browser
unfolding process_response escalate should_escalate_to_browser run_captcha_solver
challenged = refl

solved_then : process_response access asks_captcha in_browser ≡ try_again with_token
unfolding process_response run_captcha_solver write_all retry_with_access build_request_meta
    should_use_browser
solved_then = refl

unavailable_then :
    retry_response access false unavailable with_token
    ≡ try_again (record with_token { retry_times = in_browser.retry_times + 1 })
unfolding retry_response backoff_decision classify supports_status retry_with_access
    build_request_meta should_use_browser
unavailable_then = refl

solver_keeps :
    (seen : Seen) (m m' : Meta)
    → (access.solve seen m).retry_request ≡ some m'
    → (m'.mw_retry ≡ m.mw_retry)
      × (m'.retry_times ≡ m.retry_times)
      × All (λ w. is_counter w ≡ false) (access.solve seen m).extra_meta
solver_keeps seen m m' solved = (ground (arith, solved), ground (arith, solved), (refl, (refl, tt)))

scrapy_counts :
    (m m' : Meta)
    → access.scrapy_retry m ≡ some m'
    → (m'.retry_times ≡ m.retry_times + 1)
      × (m'.mw_retry ≡ m.mw_retry)
      × (m'.captcha_attempts ≡ m.captcha_attempts)
scrapy_counts m m' again = ground arith

abbrev thrice :
    Tried access fresh 3 (record with_token { retry_times = in_browser.retry_times + 1 })
thrice =
    retried false unavailable
      (escalated asks_captcha (escalated challenge first challenged) solved_then) unavailable_then

tries_end_example : 3 ≤ 13 + access.max_solve_attempts
tries_end_example = tries_end access solver_keeps scrapy_counts thrice

first_challenge : should_escalate_to_browser shop limits (some cloudflare_challenge) 1 true ≡ true
unfolding should_escalate_to_browser
first_challenge = refl

escalated_to_browser_example :
    let m' = retry_with_access access 1 true false (some cloudflare_challenge) 0 1 fresh in
    (m'.mode_selected ≡ browser) × (m'.playwright ≡ true)
escalated_to_browser_example =
    escalated_to_browser access (some cloudflare_challenge) 1 1 0 1 fresh first_challenge

retry_response-eq_example : retry_response access false unavailable fresh ≡ (
    if not false && is_retry_code access unavailable.status && ltb fresh.retry_times 5
    then or_respond access (access.scrapy_retry fresh)
    else respond)
retry_response-eq_example = retry_response-eq access false unavailable fresh

abbrev upstream : ℕ
upstream = 503

-- A domain that cools down for a minute and a half, a response that takes a second, and then one
-- that asks for a pause.
abbrev cooling : Domain
cooling = record { response_times = 100 ∷ 100 ∷ 100 ∷ []; download_delay = some 90_000 }

abbrev slow : Seen
slow = record challenge { signal = none; elapsed = some 1_000 }

abbrev pause : Seen
pause = record slow {
  status = 429;
  headers = record { remaining = none; reset_wait = none; retry_after = some 120_000 };
}

adapt_delay-IsWithin_example :
    let d' = adapt_delay access pause fresh (adapt_all access ((slow, fresh) ∷ []) cooling) in
    (delay_of access d' ≤ 300_000)
    × Ensures
        (λ decision. enforced_cooldown access decision ≤ delay_of access d')
        (backoff_decision access pause 0)
adapt_delay-IsWithin_example =
    adapt_delay-IsWithin access ((slow, fresh) ∷ []) pause fresh cooling 300_000 (omega arith)
      (omega arith) (omega arith)

abbrev one_event : Recorded 2 60_000 5 (5 ∷ []) (record_http_status 2 60_000 5 new_entry).0
one_event = recorded 5 nothing (omega arith)

record_http_status_lem_example :
    let (e', spike, count) =
      record_http_status 2 60_000 9 (record_http_status 2 60_000 5 new_entry).0 in
    (count ≡ recent 2 60_000 9 (5 ∷ []) + 1) × (spike ≡ (recent 2 60_000 9 (5 ∷ []) + 1 == max 1 2))
record_http_status_lem_example = record_http_status_lem 2 60_000 9 one_event (omega arith)
