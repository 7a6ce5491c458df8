-- ===== src/Transport/Right.antt =====
-- What an action over HTTP returns, and what its exceptions carry: rules for the monad, for
-- `_ensure_client` and for `_request_with_retry`.
use doxx.Base.{
  ℕ, zero, suc, ◌+◌, Bool, true, false, not, Option, none, some, if◌then◌else◌, leb, ◌==◌, if_cases,
}
use doxx.Crm.{CrmBatchApplyResult}
use doxx.Transport.{
  Outcome, ok, raised, Raised, malformed_error, business_error, transport_error, value_error,
  startup_error, Http, Network, HttpSettings, Action, pure, raise, ◌>>=◌, catch_business, Reply,
  HttpResponse, Verdict, returns, fails, tries_again, judge, judge_busy, judge_fine, attempts,
  settle_verdict, proceed, handle, retry_after_seconds, request_with_retry, ensure_client, ask,
  count_retry, response, no_response,
}

-- `B` says whether a `CrmBusinessError` may be raised, `Q` what the batch of an exception is like.
module _ (B : Type 0) (Q : CrmBatchApplyResult → Type 0) where
  -- What an exception carries.
  abbrev pub Carries : Raised → Type 0
  Carries (business_error status) = B
  Carries (malformed_error batch) = Q batch
  Carries _ = Unit

  abbrev pub IsRight : {A : Type 0} → (A → Type 0) → Outcome A → Type 0
  IsRight P (ok a) = P a
  IsRight P (raised e) = Carries e

  -- The actions whose result has a property, and whose exceptions carry what they may.
  pub data Gives {A : Type 0} (P : A → Type 0) (m : Action A) : Type 0 where
    gives : ((h : Http) → IsRight P (m h).0) → Gives P m

  pub outcome :
      {A : Type 0} {P : A → Type 0} {m : Action A} (h : Http) → Gives P m → IsRight P (m h).0
  outcome h (gives p) = p h

  module _ {A : Type 0} (P : A → Type 0) where
    pub pure_right : (a : A) → P a → Gives P (pure a)
    unfolding pure
    pure_right a p = gives λ h. p

    pub raise_right : (e : Raised) → Carries e → Gives P (raise e)
    unfolding raise
    raise_right e p = gives λ h. p

    proceed_right :
        {C : Type 0} (R : C → Type 0) (f : A → Action C) (r : Outcome A) (h : Http)
        → IsRight P r
        → ((a : A) → P a → Gives R (f a))
        → IsRight R (proceed f r h).0
    unfolding raise
    proceed_right R f (ok a) h p k = outcome h (k a p)
    proceed_right R f (raised e) h p k = p

    pub bind_right :
        {C : Type 0} (R : C → Type 0) (m : Action A) (f : A → Action C)
        → Gives P m
        → ((a : A) → P a → Gives R (f a))
        → Gives R (m >>= f)
    unfolding ◌>>=◌
    bind_right R m f p k = gives λ h. proceed_right R f (m h).0 (m h).1 (outcome h p) k

  pub branch_right :
      {A : Type 0} (P : A → Type 0) (b : Bool) (m n : Action A)
      → Gives P m
      → Gives P n
      → Gives P (λ h. if b then m h else n h)
  branch_right P true m n p q = p
  branch_right P false m n p q = q

  abbrev Bare : Verdict → Type 0
  Bare (returns r) = Unit
  Bare (fails e) = Carries e
  Bare (tries_again wait e) = Carries e

module _ (Q : CrmBatchApplyResult → Type 0) where
  module _ (B : Type 0) {A : Type 0} (P : A → Type 0) where
    handle_right :
        (f : ℕ → Action A) (r : Outcome A) (h : Http)
        → IsRight Unit Q P r
        → ((status : ℕ) → Gives B Q P (f status))
        → IsRight B Q P (handle f r h).0
    unfolding raise pure
    handle_right f (ok a) h p k = p
    handle_right f (raised (business_error status)) h p k = outcome B Q h (k status)
    handle_right f (raised transport_error) h p k = p
    handle_right f (raised (malformed_error batch)) h p k = p
    handle_right f (raised value_error) h p k = p
    handle_right f (raised startup_error) h p k = p

    pub catch_right :
        (m : Action A) (f : ℕ → Action A)
        → Gives Unit Q P m
        → ((status : ℕ) → Gives B Q P (f status))
        → Gives B Q P (catch_business m f)
    unfolding catch_business
    catch_right m f p k = gives λ h. handle_right f (m h).0 (m h).1 (outcome Unit Q h p) k

  module _ (net : Network) (cfg : HttpSettings) where
    judge_busy-Bare : (wait : Option ℕ) → Bare Unit Q (judge_busy net cfg wait)
    judge_busy-Bare none = tt
    judge_busy-Bare (some wait) = tt

    judge_fine-Bare :
        (r : HttpResponse) (status : Option ℕ) → Bare Unit Q (judge_fine net cfg r status)
    judge_fine-Bare r none = tt
    judge_fine-Bare r (some status) = tt

    judge-Bare : (attempt : ℕ) (reply : Reply) → Bare Unit Q (judge net cfg attempt reply)
    unfolding judge
    judge-Bare attempt no_response = tt
    judge-Bare attempt (response r) =
        let status = r.status_code in
        if_cases (Bare Unit Q) (not (leb 400 status)) (λ _. judge_fine-Bare r (net.refuses r))
          (λ _.
            if_cases (Bare Unit Q) (status == 429)
              (λ _. judge_busy-Bare (retry_after_seconds net cfg r.retry_after))
              (λ _. if_cases (Bare Unit Q) (leb 500 status) (λ _. tt) (λ _. tt)))

    settle_right :
        (v : Verdict) (later : Outcome HttpResponse × Http) (h : Http)
        → Bare Unit Q v
        → IsRight Unit Q (λ r. Unit) later.0
        → IsRight Unit Q (λ r. Unit) (settle_verdict net cfg v (some later) h).0
    settle_right (returns r) later h p q = tt
    settle_right (fails e) later h p q = p
    settle_right (tries_again wait e) later h p q = q

    last_right :
        (v : Verdict) (h : Http)
        → Bare Unit Q v
        → IsRight Unit Q (λ r. Unit) (settle_verdict net cfg v none h).0
    last_right (returns r) h p = tt
    last_right (fails e) h p = p
    last_right (tries_again wait e) h p = p

    attempts_right :
        (left attempt : ℕ) (h : Http)
        → IsRight Unit Q (λ r. Unit) (attempts net cfg left attempt h).0
    unfolding attempts
    attempts_right zero attempt h =
        let reply = net.reply h.requests in
        last_right (judge net cfg attempt reply) (ask net cfg h) (judge-Bare attempt reply)
    attempts_right (suc left) attempt h =
        let reply = net.reply h.requests in
        let next = count_retry net cfg (ask net cfg h) in
        settle_right (judge net cfg attempt reply) (attempts net cfg left (attempt + 1) next)
          (ask net cfg h) (judge-Bare attempt reply) (attempts_right left (attempt + 1) next)

    pub request_right : Gives Unit Q (λ r. Unit) (request_with_retry net cfg)
    unfolding request_with_retry
    request_right = gives λ h. attempts_right cfg.retry_attempts 0 h

    module _ (B : Type 0) where
      abbrev Fine : Outcome (Unit {0}) × Http → Type 0
      Fine r = IsRight B Q (λ u. Unit) r.0

      pub client_right : Gives B Q (λ r. Unit) (ensure_client net cfg)
      unfolding ensure_client pure raise
      client_right = gives λ h.
          if_cases Fine h.has_client (λ _. tt)
            (λ _. if_cases Fine net.can_start (λ _. tt) (λ _. tt))
