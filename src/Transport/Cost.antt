-- ===== src/Transport/Cost.antt =====
-- The requests that an action over HTTP makes: the rules of the monad, and a request with its retries.
use doxx.Base.{ℕ, zero, suc, ◌+◌, ◌≤◌, Bool, true, false, none, some, arith, if◌then◌else◌}
use doxx.Crm.{CrmBatchApplyResult}
use doxx.Transport.Right.{Gives, IsRight, outcome}
use doxx.Transport.{
  Outcome, ok, raised, business_error, transport_error, malformed_error, value_error, startup_error,
  Raised, Http, Network, HttpSettings, Action, pure, raise, proceed, handle, ◌>>=◌, catch_business,
  HttpResponse, Verdict, returns, fails, tries_again, judge, attempts, settle_verdict, ask,
  count_retry, request_with_retry, ensure_client,
}

-- An action with at most so many requests.
pub data Costs (k : ℕ) {A : Type 0} (m : Action A) : Type 0 where
  costs : ((h : Http) → (m h).1.requests ≤ h.requests + k) → Costs k m

module _ {A : Type 0} where
  pub cost : (k : ℕ) {m : Action A} (h : Http) → Costs k m → (m h).1.requests ≤ h.requests + k
  cost k h (costs p) = p h

  pub pure-Costs : (k : ℕ) (a : A) → Costs k (pure a)
  unfolding pure
  pure-Costs k a = costs λ h. omega arith

  pub raise-Costs : (k : ℕ) (e : Raised) → Costs k {A = A} (raise e)
  unfolding raise
  raise-Costs k e = costs λ h. omega arith

  pub more-Costs : (k l : ℕ) {m : Action A} → Costs k m → k ≤ l → Costs l m
  more-Costs k l p small = costs λ h. omega (arith, cost k h p, small)

  pub branch-Costs :
      (k : ℕ) (b : Bool) (m n : Action A)
      → Costs k m
      → Costs k n
      → Costs k (λ h. if b then m h else n h)
  branch-Costs k true m n p q = p
  branch-Costs k false m n p q = q

proceed_cost :
    {A B : Type 0} (k : ℕ) (f : A → Action B) (r : Outcome A) (h : Http)
    → ((a : A) → Costs k (f a))
    → (proceed f r h).1.requests ≤ h.requests + k
unfolding raise
proceed_cost k f (ok a) h p = cost k h (p a)
proceed_cost k f (raised e) h p = omega arith

pub bind-Costs :
    {A B : Type 0} (k l : ℕ) (m : Action A) (f : A → Action B)
    → Costs k m
    → ((a : A) → Costs l (f a))
    → Costs (k + l) (m >>= f)
unfolding ◌>>=◌
bind-Costs k l m f p q = costs λ h.
    let first = cost k h p in
    let second = proceed_cost l f (m h).0 (m h).1 q in omega (arith, first, second)

module _ {A : Type 0} where
  handle_cost :
      (k : ℕ) (f : ℕ → Action A) (r : Outcome A) (h : Http)
      → ((status : ℕ) → Costs k (f status))
      → (handle f r h).1.requests ≤ h.requests + k
  unfolding raise pure
  handle_cost k f (ok a) h p = omega arith
  handle_cost k f (raised (business_error status)) h p = cost k h (p status)
  handle_cost k f (raised transport_error) h p = omega arith
  handle_cost k f (raised (malformed_error batch)) h p = omega arith
  handle_cost k f (raised value_error) h p = omega arith
  handle_cost k f (raised startup_error) h p = omega arith

  pub catch-Costs :
      (k l : ℕ) (m : Action A) (f : ℕ → Action A)
      → Costs k m
      → ((status : ℕ) → Costs l (f status))
      → Costs (k + l) (catch_business m f)
  unfolding catch_business
  catch-Costs k l m f p q = costs λ h.
      let first = cost k h p in
      let second = handle_cost l f (m h).0 (m h).1 q in omega (arith, first, second)

-- A request and what follows it, where only the request may raise a `CrmBusinessError`: either what
-- follows is paid for, or what handles the error.
module _ {C : Type 0} (Q : CrmBatchApplyResult → Type 0) (P : C → Type 0) where
  handled_cost :
      (g : ℕ → Action C) (r : Outcome C) (h : Http)
      → IsRight ⊥ Q P r
      → (handle g r h).1.requests ≤ h.requests
  unfolding raise pure
  handled_cost g (ok a) h p = omega arith
  handled_cost g (raised (business_error status)) h p = elim p [ ]
  handled_cost g (raised transport_error) h p = omega arith
  handled_cost g (raised (malformed_error batch)) h p = omega arith
  handled_cost g (raised value_error) h p = omega arith
  handled_cost g (raised startup_error) h p = omega arith

  module _ {A : Type 0} (l : ℕ) (f : A → Action C) (g : ℕ → Action C) where
    either_cost :
        (r : Outcome A) (h : Http)
        → ((a : A) → Costs l (f a) × Gives ⊥ Q P (f a))
        → ((status : ℕ) → Costs l (g status))
        → (handle g (proceed f r h).0 (proceed f r h).1).1.requests ≤ h.requests + l
    unfolding raise
    either_cost (ok a) h p q =
        let first = cost l h (p a).0 in
        let rest = handled_cost g (f a h).0 (f a h).1 (outcome ⊥ Q h (p a).1) in
        omega (arith, first, rest)
    either_cost (raised e) h p q = handle_cost l g (raised e) h q

    pub either-Costs :
        (k : ℕ) (m : Action A)
        → Costs k m
        → ((a : A) → Costs l (f a) × Gives ⊥ Q P (f a))
        → ((status : ℕ) → Costs l (g status))
        → Costs (k + l) (catch_business (m >>= f) g)
    unfolding catch_business ◌>>=◌
    either-Costs k m first p q = costs λ h.
        let lem = either_cost (m h).0 (m h).1 p q in
        let paid = cost k h first in omega (arith, lem, paid)

module _ (net : Network) (cfg : HttpSettings) where
  settle_cost :
      (v : Verdict) (left : ℕ) (later : Outcome HttpResponse × Http) (h : Http)
      → later.1.requests ≤ h.requests + left
      → (settle_verdict net cfg v (some later) h).1.requests ≤ h.requests + left
  settle_cost (returns r) left later h p = omega arith
  settle_cost (fails e) left later h p = omega arith
  settle_cost (tries_again wait e) left later h p = p

  last_cost : (v : Verdict) (h : Http) → (settle_verdict net cfg v none h).1.requests ≤ h.requests
  last_cost (returns r) h = omega arith
  last_cost (fails e) h = omega arith
  last_cost (tries_again wait e) h = omega arith

  attempts_cost :
      (left attempt : ℕ) (h : Http)
      → (attempts net cfg left attempt h).1.requests ≤ h.requests + (left + 1)
  unfolding attempts
  attempts_cost zero attempt h =
      let lem = last_cost (judge net cfg attempt (net.reply h.requests)) (ask net cfg h) in
      omega (arith, lem)
  attempts_cost (suc left) attempt h =
      let next = count_retry net cfg (ask net cfg h) in
      let later = attempts net cfg left (attempt + 1) next in
      let lem = attempts_cost left (attempt + 1) next in
      let small : later.1.requests ≤ (ask net cfg h).requests + (left + 1) = omega (arith, lem) in
      let all =
        settle_cost (judge net cfg attempt (net.reply h.requests)) (left + 1) later (ask net cfg h)
          small in
      omega (arith, all)

  -- What one request may cost.
  abbrev pub tries : ℕ
  tries = cfg.retry_attempts + 1

  pub request-Costs : Costs tries (request_with_retry net cfg)
  unfolding request_with_retry
  request-Costs = costs λ h. attempts_cost cfg.retry_attempts 0 h

  pub client-Costs : Costs 0 (ensure_client net cfg)
  unfolding ensure_client pure raise
  client-Costs = costs λ h. ground arith
