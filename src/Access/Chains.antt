-- ===== src/Access/Chains.antt =====
-- A request that the two middlewares try again and again.
use doxx.Base.{
  ℕ, suc, ◌+◌, ◌-◌, ◌≤◌, ◌<◌, ◌≡◌, refl, ◌∙◌, Bool, true, false, not, ◌&&◌, Option, none, some,
  List, [], ◌∷◌, All, arith, leb, ltb, Ensures, Ensures-some, if_cases, if◌then◌else◌, ◌||◌,
}
use mathlib.Core.Path.{subst, sym}
use doxx.Access.{
  Signal, Store, Thresholds, Meta, build_request_meta, with_browser, with_proxy, without_either,
  should_use_browser, should_use_proxy, is_browser_required, is_shell, should_escalate_to_browser,
  should_escalate_to_proxy,
}
use doxx.Access.Middlewares.{
  counted, Write, write_retry_times, write_prior_failures, write_shell_strikes, write_mw_retry,
  write_captcha_attempts, write_playwright, write_other, write, write_all, Answer, respond,
  try_again, Seen, Access, run_captcha_solver, retry_with_access, escalate, or_escalate,
  process_response, retry_response, or_respond, is_banned, backoff_decision, is_blocked,
  is_retry_code,
}

-- The keys that bound the retries.
abbrev pub is_counter : Write → Bool
is_counter (write_retry_times n) = true
is_counter (write_mw_retry n) = true
is_counter (write_captcha_attempts n) = true
is_counter _ = false

module _ (store : Store) (limits : Thresholds) (Kept : Meta → Type 0) where
  -- What holds of a request whatever of its keys the mode is written in.
  build_request_meta-keeps :
      (prior : ℕ) (force_browser force_proxy : Bool) (signal : Option Signal) (supports : Bool)
      (m : Meta)
      → Kept (with_browser store limits m)
      → Kept (with_proxy store limits m)
      → Kept (without_either store limits m)
      → Kept (build_request_meta store limits prior force_browser force_proxy signal supports m)
  unfolding build_request_meta
  build_request_meta-keeps prior force_browser force_proxy signal supports m b p n =
      if_cases Kept (is_browser_required store.mode) (λ t. if_cases Kept supports (λ t. b) (λ f. n))
        (λ f.
          if_cases Kept
            (should_use_browser store limits prior signal force_browser supports && supports)
            (λ t. b)
            (λ f.
              if_cases Kept
                (should_use_proxy store limits prior force_proxy
                  || (store.requires_proxy && not store.proxy_disabled && store.proxy_available))
                (λ t. p) (λ f. n)))

module _ (a : Access) where
  -- What is left of the rounds of the middleware, of the captcha solver and of Scrapy's retries.
  abbrev pub budget : Meta → ℕ
  budget m = (8 - m.mw_retry) + (a.max_solve_attempts - m.captcha_attempts) + (5 - m.retry_times)

  -- The request of an answer has less left.
  unfoldable Spends : ℕ → Answer → Type 0
  Spends left respond = Unit
  Spends left (try_again m) = budget m < left

  -- The counters of a request that is made by the middleware in its next round.
  abbrev IsNext : Meta → Meta → Type 0
  IsNext m m' =
      (m'.mw_retry ≡ m.mw_retry + 1)
      × (m'.captcha_attempts ≡ m.captcha_attempts)
      × (m'.retry_times ≡ m.retry_times + 1)

  retry_with_access-IsNext :
      (prior : ℕ) (force_browser force_proxy : Bool) (signal : Option Signal) (strikes : ℕ)
      (m : Meta)
      → IsNext m
          (retry_with_access a prior force_browser force_proxy signal strikes (m.mw_retry + 1) m)
  unfolding retry_with_access
  retry_with_access-IsNext prior force_browser force_proxy signal strikes m =
      build_request_meta-keeps a.store a.limits (IsNext m) prior force_browser force_proxy signal
        a.spider_supports _ (refl, refl, refl)
        (if_cases (IsNext m) a.store.proxy_given (λ t. (refl, refl, refl))
          (λ f. (refl, refl, refl)))
        (refl, refl, refl)

  spent : (m m' : Meta) → m.mw_retry < 8 → IsNext m m' → Spends (budget m) (try_again m')
  unfolding Spends
  spent m m' early (rounds, solved, retries) = omega (arith, early, rounds, solved, retries)

  unspent : (left : ℕ) → Spends left respond
  unfolding Spends
  unspent left = tt

  escalate-Spends : (signal : Option Signal) (m : Meta) → Spends (budget m) (escalate a signal m)
  unfolding escalate
  escalate-Spends signal m =
      let Less = Spends (budget m) in
      let stop = unspent (budget m) in
      let shell = is_shell signal in
      let strikes = if shell then m.shell_strikes + 1 else m.shell_strikes in
      let prior = m.prior_failures in
      let next =
        λ (prior : ℕ) (b p : Bool) (s : ℕ). retry_with_access-IsNext prior b p signal s m in
      let browser =
        should_escalate_to_browser a.store a.limits signal (if shell then strikes else prior + 1)
          a.spider_supports in
      if_cases Less (leb 8 m.mw_retry) (λ full. stop)
        (λ room.
          let early : m.mw_retry < 8 = ground (arith, room) in
          if_cases Less browser (λ t. spent m _ early (next (prior + 1) true false 0))
            (λ f.
              if_cases Less (should_escalate_to_proxy a.store a.limits signal (prior + 1))
                (λ t. spent m _ early (next (prior + 1) false true strikes))
                (λ f.
                  if_cases Less (shell && ltb strikes a.limits.shell_escalate_after)
                    (λ t. spent m _ early (next prior false false strikes)) (λ f. stop))))

  -- The request that the captcha solver returns is the given one, as to the rounds and the retries,
  -- and `extra_meta` writes none of the three counters.
  abbrev pub SolverKeeps : Type 0
  SolverKeeps =
      (seen : Seen) (m m' : Meta)
      → (a.solve seen m).retry_request ≡ some m'
      → (m'.mw_retry ≡ m.mw_retry)
        × (m'.retry_times ≡ m.retry_times)
        × All (λ w. is_counter w ≡ false) (a.solve seen m).extra_meta

  -- Scrapy counts a retry, and keeps what the middleware has counted.
  abbrev pub ScrapyCounts : Type 0
  ScrapyCounts =
      (m m' : Meta)
      → a.scrapy_retry m ≡ some m'
      → (m'.retry_times ≡ m.retry_times + 1)
        × (m'.mw_retry ≡ m.mw_retry)
        × (m'.captcha_attempts ≡ m.captcha_attempts)

  or_escalate-Spends :
      (signal : Option Signal) (m : Meta) (solved : Option Meta)
      → ((m' : Meta) → solved ≡ some m' → Spends (budget m) (try_again m'))
      → Spends (budget m) (or_escalate a signal m solved)
  or_escalate-Spends signal m none less = escalate-Spends signal m
  or_escalate-Spends signal m (some m') less = less m' refl

  abbrev HasLess : Meta → Option Meta → Type 0
  HasLess m solved = Ensures (λ m'. Spends (budget m) (try_again m')) solved

  -- Writes of other keys leave the counters.
  write_all-budget :
      (ws : List Write) (m : Meta)
      → All (λ w. is_counter w ≡ false) ws
      → budget (write_all a ws m) ≡ budget m
  unfolding write_all
  write_all-budget [] m free = refl
  write_all-budget (w ∷ ws) m free =
      write_all-budget ws (write a w m) free.1 ∙ write-budget w m free.0
    where
      write-budget : (w : Write) (m : Meta) → is_counter w ≡ false → budget (write a w m) ≡ budget m
      write-budget (write_retry_times n) m h = cc
      write-budget (write_mw_retry n) m h = cc
      write-budget (write_captcha_attempts n) m h = cc
      write-budget (write_prior_failures n) m h = refl
      write-budget (write_shell_strikes n) m h = refl
      write-budget (write_playwright b) m h = refl
      write-budget (write_other key value) m h = refl

  counted_less :
      (m : Meta) (extra : List Write) (solved : Option Meta)
      → ((m' : Meta)
          → solved ≡ some m'
          → (m'.mw_retry ≡ m.mw_retry)
            × (m'.retry_times ≡ m.retry_times)
            × All (λ w. is_counter w ≡ false) extra)
      → m.captcha_attempts < a.max_solve_attempts
      → HasLess m (counted a m extra solved)
  unfolding Spends
  counted_less m extra none keeps room = tt
  counted_less m extra (some again) keeps room =
      let (rounds, retries, free) = keeps again refl in
      let solved = record again { captcha_attempts = m.captcha_attempts + 1 } in
      let same = write_all-budget extra solved free in omega (arith, rounds, retries, room, same)

  solved_less : SolverKeeps → (seen : Seen) (m : Meta) → HasLess m (run_captcha_solver a seen m)
  unfolding run_captcha_solver
  solved_less keeps seen m =
      let result = a.solve seen m in
      if_cases (HasLess m) (not seen.captcha_related) (λ t. tt)
        (λ f.
          if_cases (HasLess m) (leb a.max_solve_attempts m.captcha_attempts) (λ t. tt)
            (λ room.
              counted_less m result.extra_meta result.retry_request (keeps seen m)
                (ground (arith, room))))

  process_response-Spends :
      SolverKeeps → (seen : Seen) (m : Meta) → Spends (budget m) (process_response a seen m)
  unfolding process_response
  process_response-Spends keeps seen m =
      if_cases (Spends (budget m)) (not (is_banned a seen.signal)) (λ t. unspent (budget m))
        (λ f.
          or_escalate-Spends seen.signal m
            (if a.captcha_hooks then run_captcha_solver a seen m else none)
            (λ m' solved.
              Ensures-some (λ m'. Spends (budget m) (try_again m')) _
                (if_cases (HasLess m) a.captcha_hooks (λ t. solved_less keeps seen m) (λ f. tt))
                solved))

  or_respond-Spends :
      ScrapyCounts
      → (m : Meta) (tried : Option Meta) → m.retry_times < 5
      → tried ≡ a.scrapy_retry m
      → Spends (budget m) (or_respond a tried)
  unfolding Spends
  or_respond-Spends counts m none early same = tt
  or_respond-Spends counts m (some m') early same =
      let (retries, rounds, solved) = counts m m' (sym same) in
      omega (arith, early, retries, rounds, solved)

  retry_response-Spends :
      ScrapyCounts
      → (dont_retry : Bool) (seen : Seen) (m : Meta)
      → Spends (budget m) (retry_response a dont_retry seen m)
  unfolding retry_response
  retry_response-Spends counts dont_retry seen m =
      let Less = Spends (budget m) in
      let stop = unspent (budget m) in
      let decision = backoff_decision a seen m.retry_times in
      if_cases Less (dont_retry || not (is_retry_code a seen.status)) (λ t. stop)
        (λ f.
          if_cases Less (leb 5 m.retry_times) (λ t. stop)
            (λ early.
              if_cases Less (a.enforce_backoff && is_blocked a decision) (λ t. stop)
                (λ f. or_respond-Spends counts m (a.scrapy_retry m) (ground (arith, early)) refl)))

  -- So many requests instead of another one, each made by one of the two middlewares in answer to
  -- any response.
  pub data Tried (m : Meta) : ℕ → Meta → Type 0 where
    first : Tried m 0 m
    escalated :
        {n : ℕ} {m' m'' : Meta} (seen : Seen)
        → Tried m n m'
        → process_response a seen m' ≡ try_again m''
        → Tried m (suc n) m''
    retried :
        {n : ℕ} {m' m'' : Meta} (dont_retry : Bool) (seen : Seen)
        → Tried m n m'
        → retry_response a dont_retry seen m' ≡ try_again m''
        → Tried m (suc n) m''

  Spends-less :
      (left : ℕ) (answer : Answer) (m : Meta)
      → answer ≡ try_again m
      → Spends left answer
      → budget m < left
  unfolding Spends
  Spends-less left answer m same less = subst (Spends left) same less

  Tried-budget :
      SolverKeeps → ScrapyCounts → {m m' : Meta} {n : ℕ} → Tried m n m' → n + budget m' ≤ budget m
  Tried-budget keeps counts first = omega arith
  Tried-budget keeps counts (escalated {n} {m'} {m''} seen tried again) =
      let rec = Tried-budget keeps counts tried in
      let less = Spends-less (budget m') _ m'' again (process_response-Spends keeps seen m') in
      omega (arith, rec, less)
  Tried-budget keeps counts (retried {n} {m'} {m''} dont_retry seen tried again) =
      let rec = Tried-budget keeps counts tried in
      let less =
        Spends-less (budget m') _ m'' again (retry_response-Spends counts dont_retry seen m') in
      omega (arith, rec, less)

  -- However a shop responds, the two middlewares together try a fresh request again at most thirteen
  -- times and once for each attempt of the captcha solver: where the solver's request keeps the
  -- counters of rounds and retries, its `extra_meta` writes none of the three counters, and Scrapy
  -- counts its retries and keeps the rest.
  pub tries_end :
      ((seen : Seen) (m m' : Meta)
        → (a.solve seen m).retry_request ≡ some m'
        → (m'.mw_retry ≡ m.mw_retry)
          × (m'.retry_times ≡ m.retry_times)
          × All (λ w. is_counter w ≡ false) (a.solve seen m).extra_meta)
      → ((m m' : Meta)
          → a.scrapy_retry m ≡ some m'
          → (m'.retry_times ≡ m.retry_times + 1)
            × (m'.mw_retry ≡ m.mw_retry)
            × (m'.captcha_attempts ≡ m.captcha_attempts))
      → {m m' : Meta} {n : ℕ} → Tried m n m'
      → n ≤ 13 + a.max_solve_attempts
  tries_end keeps counts tried = omega (arith, Tried-budget keeps counts tried)
