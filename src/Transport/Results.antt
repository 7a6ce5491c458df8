-- ===== src/Transport/Results.antt =====
-- What a batch that is sent over HTTP comes to, whatever the CRM replies: the results of its events.
use doxx.Base.{ℕ, ◌≡◌, refl, not, ◌||◌, Option, none, List, [], ◌∷◌, leb, ◌==◌, if_cases, String}
use doxx.Batch.{SyncEvent}
use doxx.Crm.{CrmApplyResult, CrmBatchApplyResult}
use doxx.Crm.Answers.{TextOps, Answering, Response}
use doxx.Crm.Classify.{
  Classified, classified, malformed_batch_response, classify_single_sync_response, http_failure,
}
use doxx.Crm.Laws.{
  key_of, result_key, IsCoherent, Answers, batch_in, row-key, http_failure-Answers,
  classify_batch_sync_response_lem,
}
use doxx.Transport.{
  Outcome, ok, raised, business_error, transport_error, value_error, startup_error, malformed_error,
  Http, Network, HttpSettings, from_business, send_one_event, send_each, retry_item, retry_items,
  retry_retryable_items_in_batch, send_singly, take_classified, batch_refused, send_together,
  send_batch_events, without_batches,
}
use doxx.Transport.Right.{
  Gives, gives, outcome, IsRight, branch_right, pure_right, raise_right, bind_right, catch_right,
  request_right, client_right,
}

module _ (py : TextOps) where
  -- A batch with the results of the events.
  abbrev pub Fits : List SyncEvent → CrmBatchApplyResult → Type 0
  Fits events batch = Answers py events batch.items

  abbrev FitsOne : SyncEvent → CrmApplyResult → Type 0
  FitsOne e item = (result_key item ≡ key_of py e) × IsCoherent item

  failure-FitsOne : (e : SyncEvent) (status : ℕ) → FitsOne e (http_failure py status e)
  failure-FitsOne e status = (refl, (http_failure-Answers py status (e ∷ [])).1.0)

  Answers-cons :
      (e : SyncEvent) (item : CrmApplyResult) (events : List SyncEvent)
      (items : List CrmApplyResult)
      → FitsOne e item
      → Answers py events items
      → Answers py (e ∷ events) (item ∷ items)
  Answers-cons e item events items (key, coherent) (keys, rest) =
      rw (keys, key) (refl, (coherent, rest))

  module _ (settings : Answering) where
    single-FitsOne :
        (e : SyncEvent) (status : ℕ) (json : Response)
        → FitsOne e (classify_single_sync_response py settings e status json)
    unfolding classify_single_sync_response
    single-FitsOne e status json =
        if_cases (FitsOne e) (leb 400 status) (λ _. failure-FitsOne e status)
          (λ _. row-key py settings e status _)

    module _ (B : Type 0) (Q : CrmBatchApplyResult → Type 0) (net : Network)
        (cfg : HttpSettings) where
      one_right : (e : SyncEvent) → Gives B Q (FitsOne e) (send_one_event net cfg py settings e)
      unfolding send_one_event from_business
      one_right e =
          bind_right B Q (λ u. Unit) (FitsOne e) _ _ (client_right Q net cfg B)
            λ _ _.
              catch_right Q B (FitsOne e) _ _
                (bind_right Unit Q (λ r. Unit) (FitsOne e) _ _ (request_right Q net cfg)
                  (λ r _. pure_right Unit Q (FitsOne e) _ (single-FitsOne e r.status_code _)))
                (λ status. pure_right B Q (FitsOne e) _ (failure-FitsOne e status))

      each_right :
          (events : List SyncEvent)
          → Gives B Q (Answers py events) (send_each net cfg py settings events)
      unfolding send_each
      each_right [] = pure_right B Q (Answers py []) _ (refl, tt)
      each_right (e ∷ events) =
          let whole = Answers py (e ∷ events) in
          bind_right B Q (FitsOne e) whole _ _ (one_right e) λ item fits.
            bind_right B Q (Answers py events) whole _ _ (each_right events) λ items rest.
              pure_right B Q whole (item ∷ items) (Answers-cons e item events items fits rest)

      item_right :
          (e : SyncEvent) (item : CrmApplyResult)
          → FitsOne e item
          → Gives B Q (FitsOne e) (retry_item net cfg py settings e item)
      unfolding retry_item
      item_right e item fits =
          branch_right B Q (FitsOne e) (item.success || not item.retryable) _ _
            (pure_right B Q (FitsOne e) item fits) (one_right e)

      items_right :
          (events : List SyncEvent) (items : List CrmApplyResult)
          → Answers py events items
          → Gives B Q (Answers py events) (retry_items net cfg py settings events items)
      unfolding retry_items
      items_right [] items fits = pure_right B Q (Answers py []) items fits
      items_right (e ∷ events) [] fits = pure_right B Q (Answers py (e ∷ events)) [] fits
      items_right (e ∷ events) (item ∷ items) (keys, (coherent, rest)) =
          let whole = Answers py (e ∷ events) in
          bind_right B Q (FitsOne e) whole _ _ (item_right e item (cc keys, coherent)) λ new fits.
            bind_right B Q (Answers py events) whole _ _ (items_right events items (cc keys, rest))
              λ news more.
                pure_right B Q whole (new ∷ news) (Answers-cons e new events news fits more)

      retry_right :
          (events : List SyncEvent) (batch : CrmBatchApplyResult)
          → Fits events batch
          → Gives B Q
              (Fits events)
              (retry_retryable_items_in_batch net cfg py settings events batch)
      unfolding retry_retryable_items_in_batch
      retry_right events batch fits =
          branch_right B Q (Fits events) (not cfg.retry_only_retryable_items) _ _
            (pure_right B Q (Fits events) batch fits)
            (bind_right B Q (Answers py events) (Fits events) _ _
              (items_right events batch.items fits)
              (λ items answers. pure_right B Q (Fits events) _ answers))

      singly_right :
          (status : Option ℕ) (code : Option String) (events : List SyncEvent)
          → Gives B Q (Fits events) (send_singly net cfg py settings status code events)
      unfolding send_singly
      singly_right status code events =
          bind_right B Q (Answers py events) (Fits events) _ _ (each_right events)
            λ items answers. retry_right events _ answers

      refused_right :
          (events : List SyncEvent) (status : ℕ)
          → Gives B Q (Fits events) (batch_refused net cfg py settings events status)
      unfolding batch_refused
      refused_right events status =
          branch_right B Q (Fits events) (status == 404 || status == 501) _ _
            (gives
              λ h. outcome B Q (without_batches net cfg py settings h) (singly_right _ _ events))
            (pure_right B Q (Fits events) _ (http_failure-Answers py status events))

    module _ (net : Network) (cfg : HttpSettings) (B : Type 0) where
      pub classified_right :
          (events : List SyncEvent) (c : Classified)
          → Fits events (batch_in c)
          → Gives B (Fits events) (Fits events) (take_classified net cfg py settings events c)
      unfolding take_classified
      classified_right events (classified batch) fits =
          retry_right B (Fits events) net cfg events batch fits
      classified_right events (malformed_batch_response batch) fits =
          raise_right B (Fits events) (Fits events) _ fits

    module _ (net : Network) (cfg : HttpSettings) (B : Type 0) where
      together_right :
          (events : List SyncEvent)
          → Gives B (Fits events) (Fits events) (send_together net cfg py settings events)
      unfolding send_together
      together_right events =
          let fits = Fits events in
          bind_right B fits (λ u. Unit) fits _ _ (client_right fits net cfg B)
            λ _ _.
              catch_right fits B fits _ _
                (bind_right Unit fits (λ r. Unit) fits _ _ (request_right fits net cfg)
                  λ r _.
                    classified_right net cfg Unit events _
                      (classify_batch_sync_response_lem py settings events r.status_code r.body))
                (refused_right B fits net cfg events)

      batch_right :
          (events : List SyncEvent)
          → Gives B (Fits events) (Fits events) (send_batch_events net cfg py settings events)
      unfolding send_batch_events
      batch_right [] = pure_right B (Fits []) (Fits []) _ (refl, tt)
      batch_right (e ∷ events) = gives λ h. outcome B (Fits (e ∷ events)) h (
          branch_right B (Fits (e ∷ events)) (Fits (e ∷ events)) h.batch_supported _ _
            (together_right (e ∷ events))
            (singly_right B (Fits (e ∷ events)) net cfg none none (e ∷ events)))

    -- What sending the events may come to: a batch with the results of its events, an exception with
    -- such a batch, or another exception than a `CrmBusinessError`.
    abbrev pub IsSent : List SyncEvent → Outcome CrmBatchApplyResult → Type 0
    IsSent events (ok batch) = Answers py events batch.items
    IsSent events (raised (malformed_error batch)) = Answers py events batch.items
    IsSent events (raised (business_error status)) = ⊥
    IsSent events (raised transport_error) = Unit
    IsSent events (raised value_error) = Unit
    IsSent events (raised startup_error) = Unit

    right-IsSent :
        (events : List SyncEvent) (r : Outcome CrmBatchApplyResult)
        → IsRight ⊥ (Fits events) (Fits events) r
        → IsSent events r
    right-IsSent events (ok batch) right = right
    right-IsSent events (raised (business_error status)) right = right
    right-IsSent events (raised transport_error) right = tt
    right-IsSent events (raised (malformed_error batch)) right = right
    right-IsSent events (raised value_error) right = tt
    right-IsSent events (raised startup_error) right = tt

    -- Whatever the network replies to the requests of a batch, and in whatever state they start,
    -- sending it never lets a `CrmBusinessError` escape; a batch that it returns, or that its
    -- exception carries, holds the events' own results, one for each, in the events' order and
    -- coherent, also after the retries of single items.
    pub send_batch_events-IsSent :
        (net : Network) (cfg : HttpSettings) (events : List SyncEvent) (h : Http)
        → IsSent events (send_batch_events net cfg py settings events h).0
    send_batch_events-IsSent net cfg events h =
        right-IsSent events (send_batch_events net cfg py settings events h).0
          (outcome ⊥ (Fits events) h (batch_right net cfg ⊥ events))
