-- ===== src/Transport.antt =====
-- `CrmHttpTransport` of infrastructure/transports/crm_http.py: one request with its retries, one
-- event, and a batch with the retry of its items. The signing, the headers and the log are left out.
pub mod Right
pub mod Results
pub mod Cost
pub mod Budget
pub mod Retrying
pub mod Dead
pub mod Settling
mod Tests
use doxx.Base.{
  ℕ, zero, suc, ◌+◌, ◌*◌, ◌^◌, String, Bool, true, false, not, ◌&&◌, ◌||◌, Option, none, some, List,
  [], ◌∷◌, map, leb, ◌==◌, if◌then◌else◌,
}
use doxx.Batch.{SyncEvent}
use doxx.Crm.{CrmApplyResult, CrmBatchApplyResult}
use doxx.Crm.Answers.{TextOps, Answering, Response, no_json, rows, results, object, other_json}
use doxx.Crm.Classify.{
  Classified, classified, malformed_batch_response, http_failure, batch_of,
  classify_single_sync_response, classify_batch_sync_response,
}

-- Of an `httpx.Response`: the status, the header `Retry-After`, and the body as JSON.
pub record HttpResponse : Type 0 where
  pub status_code : ℕ
  pub retry_after : Option String
  pub body : Response

-- What a request comes to: a response, or an `httpx.TransportError`.
pub data Reply : Type 0 where
  response : HttpResponse → Reply
  no_response : Reply

-- `CrmBusinessError` with its status, the two errors of the transport and the classifier, a
-- ValueError, and the RuntimeError of `_ensure_client`.
pub data Raised : Type 0 where
  business_error : ℕ → Raised
  transport_error : Raised
  malformed_error : CrmBatchApplyResult → Raised
  value_error : Raised
  startup_error : Raised

pub data Outcome (A : Type 0) : Type 0 where
  ok : A → Outcome A
  raised : Raised → Outcome A

-- The requests made so far, whether there is a client, and whether the batch endpoint is used.
pub record Http : Type 0 where
  pub requests : ℕ
  pub retries : ℕ
  pub has_client : Bool
  pub batch_supported : Bool

-- The reply to the n-th request, the status with which the policy on redirects and hosts refuses a
-- response, Python's `float` in ticks of the clock (none is a ValueError), and whether the security
-- checks of `_ensure_client` pass.
pub record Network : Type 0 where
  pub reply : ℕ → Reply
  pub refuses : HttpResponse → Option ℕ
  pub float : String → Option ℕ
  pub can_start : Bool

pub record HttpSettings : Type 0 where
  pub retry_attempts : ℕ
  pub retry_backoff : ℕ
  pub retry_only_retryable_items : Bool

abbrev pub Action : Type 0 → Type 0
Action A = Http → Outcome A × Http

module _ {A : Type 0} where
  unfoldable pub pure : A → Action A
  pure a h = (ok a, h)

  unfoldable pub raise : Raised → Action A
  raise e h = (raised e, h)

abbrev pub proceed : {A B : Type 0} → (A → Action B) → Outcome A → Action B
proceed f (ok a) = f a
proceed f (raised e) = raise e

infixl 5 ◌>>=◌
unfoldable pub ◌>>=◌ : {A B : Type 0} → Action A → (A → Action B) → Action B
◌>>=◌ m f h = proceed f (m h).0 (m h).1

abbrev pub handle : {A : Type 0} → (ℕ → Action A) → Outcome A → Action A
handle f (raised (business_error status)) = f status
handle f (raised e) = raise e
handle f (ok a) = pure a

-- `try ... except CrmBusinessError as exc`
unfoldable pub catch_business : {A : Type 0} → Action A → (ℕ → Action A) → Action A
catch_business m f h = handle f (m h).0 (m h).1

-- What is made of a reply: the method returns it, raises an exception, or tries again after a wait
-- and raises the exception when there is no attempt left.
pub data Verdict : Type 0 where
  returns : HttpResponse → Verdict
  fails : Raised → Verdict
  tries_again : ℕ → Raised → Verdict

module _ (net : Network) (cfg : HttpSettings) where
  unfoldable pub ensure_client : Action (Unit {0})
  ensure_client h =
      if h.has_client
      then pure tt h
      else if net.can_start
      then pure tt (record h { has_client = true })
      else raise startup_error h

  abbrev pub judge_fine : HttpResponse → Option ℕ → Verdict
  judge_fine r none = returns r
  judge_fine r (some status) = fails (business_error status)

  -- `float(resp.headers.get("Retry-After", str(backoff)))`
  abbrev pub retry_after_seconds : Option String → Option ℕ
  retry_after_seconds none = some cfg.retry_backoff
  retry_after_seconds (some header) = net.float header

  abbrev pub judge_busy : Option ℕ → Verdict
  judge_busy none = fails value_error
  judge_busy (some wait) = tries_again wait (business_error 429)

  unfoldable pub judge : ℕ → Reply → Verdict
  judge attempt no_response = tries_again (cfg.retry_backoff * 2 ^ attempt) transport_error
  judge attempt (response r) =
      let status = r.status_code in
      if not (leb 400 status)
      then judge_fine r (net.refuses r)
      else if status == 429
      then judge_busy (retry_after_seconds r.retry_after)
      else if leb 500 status
      then tries_again (cfg.retry_backoff * 2 ^ attempt) (business_error status)
      else fails (business_error status)

  -- The end of an attempt, given what the remaining ones come to, if there are any.
  abbrev pub settle_verdict : Verdict → Option (Outcome HttpResponse × Http) → Action HttpResponse
  settle_verdict (returns r) later h = (ok r, h)
  settle_verdict (fails e) later h = (raised e, h)
  settle_verdict (tries_again wait e) none h = (raised e, h)
  settle_verdict (tries_again wait e) (some rest) h = rest

  abbrev pub ask : Http → Http
  ask h = record h { requests = h.requests + 1 }

  abbrev pub count_retry : Http → Http
  count_retry h = record h { retries = h.retries + 1 }

  -- The loop over the attempts, by the number of those that are left after this one.
  unfoldable pub attempts : ℕ → ℕ → Action HttpResponse
  attempts zero attempt h = settle_verdict (judge attempt (net.reply h.requests)) none (ask h)
  attempts (suc left) attempt h =
      settle_verdict (judge attempt (net.reply h.requests))
        (some (attempts left (attempt + 1) (count_retry (ask h)))) (ask h)

  unfoldable pub request_with_retry : Action HttpResponse
  request_with_retry h = attempts cfg.retry_attempts 0 h

  module _ (py : TextOps) (settings : Answering) where
    -- `_apply_from_crm_business_error`
    unfoldable pub from_business : SyncEvent → ℕ → Action CrmApplyResult
    from_business event status = pure (http_failure py status event)

    -- A list is wrapped as `{"results": [...]}`, and what is neither a list nor an object is dropped.
    abbrev pub as_dict : Response → Response
    as_dict (rows given) = results given
    as_dict other_json = no_json
    as_dict json = json

    unfoldable pub send_one_event : SyncEvent → Action CrmApplyResult
    send_one_event event = ensure_client >>= λ _.
        catch_business
          (request_with_retry >>= λ r.
            pure (classify_single_sync_response py settings event r.status_code (as_dict r.body)))
          (from_business event)

    unfoldable pub send_each : List SyncEvent → Action (List CrmApplyResult)
    send_each [] = pure []
    send_each (e ∷ events) =
        send_one_event e >>= λ item. send_each events >>= λ items. pure (item ∷ items)

    unfoldable pub retry_item : SyncEvent → CrmApplyResult → Action CrmApplyResult
    retry_item event item h =
        if item.success || not item.retryable then pure item h else send_one_event event h

    -- `for i, (ev, ar) in enumerate(zip(events, batch_res.items))`
    unfoldable pub retry_items : List SyncEvent → List CrmApplyResult → Action (List CrmApplyResult)
    retry_items [] items = pure items
    retry_items (e ∷ events) [] = pure []
    retry_items (e ∷ events) (item ∷ items) =
        retry_item e item >>= λ new. retry_items events items >>= λ rest. pure (new ∷ rest)

    unfoldable pub retry_retryable_items_in_batch :
        List SyncEvent → CrmBatchApplyResult → Action CrmBatchApplyResult
    retry_retryable_items_in_batch events batch_res h =
        if not cfg.retry_only_retryable_items
        then pure batch_res h
        else (retry_items events batch_res.items >>= λ items.
              pure (record batch_res { items = items }))
            h

    abbrev pub all_success : List CrmApplyResult → Bool
    all_success [] = true
    all_success (i ∷ items) = i.success && all_success items

    abbrev pub last_status : Option ℕ → List CrmApplyResult → Option ℕ
    last_status status [] = status
    last_status status (i ∷ items) = last_status i.http_status items

    -- Every event alone, and the retryable ones once more.
    unfoldable pub send_singly :
        Option ℕ → Option String → List SyncEvent → Action CrmBatchApplyResult
    send_singly http_status code events = send_each events >>= λ items.
        retry_retryable_items_in_batch events (record {
          items = items;
          transport_ok = all_success items;
          http_status = elim http_status [
            | none ↦ last_status none items
            | some status ↦ some status
          ];
          batch_error_code = code;
        })

    unfoldable pub take_classified : List SyncEvent → Classified → Action CrmBatchApplyResult
    take_classified events (classified batch) = retry_retryable_items_in_batch events batch
    take_classified events (malformed_batch_response batch) = raise (malformed_error batch)

    abbrev pub without_batches : Http → Http
    without_batches h = record h { batch_supported = false }

    -- The clause `except CrmBusinessError` of a batch.
    unfoldable pub batch_refused : List SyncEvent → ℕ → Action CrmBatchApplyResult
    batch_refused events status h =
        if status == 404 || status == 501
        then send_singly (some status) (some (py.field (py.str_int status))) events
            (without_batches h)
        else pure
            (batch_of py (map (http_failure py status) events) false status
              (some (py.str_int status)))
            h

    unfoldable pub send_together : List SyncEvent → Action CrmBatchApplyResult
    send_together events = ensure_client >>= λ _.
        catch_business
          (request_with_retry >>= λ r.
            take_classified events
              (classify_batch_sync_response py settings events r.status_code r.body))
          (batch_refused events)

    unfoldable pub send_batch_events : List SyncEvent → Action CrmBatchApplyResult
    send_batch_events [] h =
        pure
          (record { items = []; transport_ok = true; http_status = none; batch_error_code = none })
          h
    send_batch_events (e ∷ events) h =
        if h.batch_supported
        then send_together (e ∷ events) h
        else send_singly none none (e ∷ events) h
