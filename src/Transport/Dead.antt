-- ===== src/Transport/Dead.antt =====
-- A batch of which the CRM has answered, when the retry of a single event gets no reply any more.
use doxx.Base.{
  ℕ, zero, suc, ◌+◌, ◌≤◌, ◌≡◌, refl, ◌∙◌, ap, Bool, true, false, not, ◌||◌, List, [], ◌∷◌, arith,
  if_true, if_false, Bool-cases, inl, inr,
}
use doxx.Batch.{SyncEvent}
use doxx.Crm.{CrmApplyResult, CrmBatchApplyResult}
use doxx.Crm.Answers.{TextOps, Answering}
use doxx.Crm.Classify.{classified, classify_batch_sync_response}
use doxx.Transport.{
  Action, Outcome, ok, raised, transport_error, Http, Network, HttpSettings, HttpResponse, response,
  no_response, pure, raise, ◌>>=◌, catch_business, ask, attempts, request_with_retry, ensure_client,
  send_one_event, retry_item, retry_items, retry_retryable_items_in_batch, take_classified,
  send_together, send_batch_events,
}
use doxx.Transport.Retrying.{
  IsFine, fine_judge, started, proceeds, error_of, request_with_retry-gives_up,
}

-- A result whose event is sent once more.
abbrev pub has_retryable : List SyncEvent → List CrmApplyResult → Bool
has_retryable [] items = false
has_retryable (e ∷ events) [] = false
has_retryable (e ∷ events) (i ∷ items) =
    not (i.success || not i.retryable) || has_retryable events items

abbrev outcome_of : {A : Type 0} → Outcome A × Http → Outcome A
outcome_of r = r.0

lost :
    {A B : Type 0} (m : Action A) (f : A → Action B) (h : Http)
    → (m h).0 ≡ raised transport_error
    → ((m >>= f) h).0 ≡ raised transport_error
unfolding ◌>>=◌ raise
lost m f h gone = rw gone refl

caught_not :
    {A : Type 0} (m : Action A) (g : ℕ → Action A) (h : Http)
    → (m h).0 ≡ raised transport_error
    → (catch_business m g h).0 ≡ raised transport_error
unfolding catch_business raise
caught_not m g h gone = rw gone refl

module _ (net : Network) (cfg : HttpSettings) where
  -- From one request on there is no reply.
  abbrev pub IsDead : ℕ → Type 0
  IsDead from = (i : ℕ) → from ≤ i → net.reply i ≡ no_response

  request_dead :
      (h : Http) → IsDead h.requests → (request_with_retry net cfg h).0 ≡ raised transport_error
  request_dead h dead =
      let last = h.requests + cfg.retry_attempts in
      (request_with_retry-gives_up net cfg h (λ i low high. rw (dead i low) refl)).0
      ∙ ap (λ r. raised (error_of net cfg r)) (dead last (omega arith))

  attempts_fine :
      (left : ℕ) (h : Http) (r : HttpResponse)
      → net.reply h.requests ≡ response r
      → IsFine net cfg r
      → attempts net cfg left 0 h ≡ (ok r, ask net cfg h)
  unfolding attempts
  attempts_fine zero h r got fine = rw (got, fine_judge net cfg 0 r fine) refl
  attempts_fine (suc left) h r got fine = rw (got, fine_judge net cfg 0 r fine) refl

  module _ (py : TextOps) (settings : Answering) where
    one_dead :
        (e : SyncEvent) (h : Http)
        → h.has_client ≡ true
        → IsDead h.requests
        → (send_one_event net cfg py settings e h).0 ≡ raised transport_error
    unfolding send_one_event
    one_dead e h client dead =
        ap outcome_of (proceeds (ensure_client net cfg) _ h h (started net cfg h client))
        ∙ caught_not _ _ h (lost (request_with_retry net cfg) _ h (request_dead h dead))

    rest_retryable :
        (events : List SyncEvent) (items : List CrmApplyResult) (success retryable : Bool)
        → success || not retryable ≡ true
        → not (success || not retryable) || has_retryable events items ≡ true
        → has_retryable events items ≡ true
    rest_retryable events items true retryable settled some_one = some_one
    rest_retryable events items false true settled some_one = absurd (cc settled)
    rest_retryable events items false false settled some_one = some_one

    items_dead :
        (events : List SyncEvent) (items : List CrmApplyResult) (h : Http)
        → h.has_client ≡ true
        → IsDead h.requests
        → has_retryable events items ≡ true
        → (retry_items net cfg py settings events items h).0 ≡ raised transport_error
    unfolding retry_items retry_item pure
    items_dead [] items h client dead some_one = absurd (cc some_one)
    items_dead (e ∷ events) [] h client dead some_one = absurd (cc some_one)
    items_dead (e ∷ events) (i ∷ items) h client dead some_one =
        elim (Bool-cases (i.success || not i.retryable)) [
          | inl settled ↦
              ap outcome_of (
                proceeds (retry_item net cfg py settings e i) _ h h
                  (if_true (i.success || not i.retryable) _ _ settled))
              ∙ lost (retry_items net cfg py settings events items) _ h (
                  items_dead events items h client dead
                    (rest_retryable events items i.success i.retryable settled some_one))
          | inr again ↦ lost (retry_item net cfg py settings e i) _ h (
              ap outcome_of (if_false (i.success || not i.retryable) _ _ again)
              ∙ one_dead e h client dead)
        ]

    retry_dead :
        (events : List SyncEvent) (batch : CrmBatchApplyResult) (h : Http)
        → cfg.retry_only_retryable_items ≡ true
        → h.has_client ≡ true
        → IsDead h.requests
        → has_retryable events batch.items ≡ true
        → (retry_retryable_items_in_batch net cfg py settings events batch h).0
          ≡ raised transport_error
    unfolding retry_retryable_items_in_batch
    retry_dead events batch h retrying client dead some_one =
        ap outcome_of (if_false (not cfg.retry_only_retryable_items) _ _ (ap not retrying))
        ∙ lost (retry_items net cfg py settings events batch.items) _ h
            (items_dead events batch.items h client dead some_one)

    taken_dead :
        (events : List SyncEvent) (batch : CrmBatchApplyResult) (h : Http)
        → cfg.retry_only_retryable_items ≡ true
        → h.has_client ≡ true
        → IsDead h.requests
        → has_retryable events batch.items ≡ true
        → (take_classified net cfg py settings events (classified batch) h).0
          ≡ raised transport_error
    unfolding take_classified
    taken_dead = retry_dead

    pub send_batch_events-dead :
        (e : SyncEvent) (events : List SyncEvent) (h : Http) (r : HttpResponse)
        (batch : CrmBatchApplyResult)
        → h.has_client ≡ true
        → h.batch_supported ≡ true
        → cfg.retry_only_retryable_items ≡ true
        → net.reply h.requests ≡ response r
        → IsFine net cfg r
        → classify_batch_sync_response py settings (e ∷ events) r.status_code r.body
          ≡ classified batch
        → has_retryable (e ∷ events) batch.items ≡ true
        → IsDead (h.requests + 1)
        → (send_batch_events net cfg py settings (e ∷ events) h).0 ≡ raised transport_error
    unfolding send_batch_events send_together request_with_retry
    send_batch_events-dead e events h r batch client batches retrying got fine rows some_one dead =
        ap outcome_of (
          if_true h.batch_supported _ _ batches
          ∙ proceeds (ensure_client net cfg) _ h h (started net cfg h client))
        ∙ caught_not _ _ h (
            ap outcome_of (
              proceeds (request_with_retry net cfg) _ h (ask net cfg h)
                (attempts_fine cfg.retry_attempts h r got fine))
            ∙ (ap
                  (λ c.
                    outcome_of (take_classified net cfg py settings (e ∷ events) c (ask net cfg h)))
                  rows
                ∙ taken_dead (e ∷ events) batch (ask net cfg h) retrying client dead some_one))
