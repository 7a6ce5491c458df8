-- ===== src/Transport/Budget.antt =====
-- How many requests a batch makes over HTTP.
use doxx.Base.{
  ℕ, ◌+◌, ◌*◌, ◌≤◌, not, ◌||◌, Option, none, List, [], ◌∷◌, arith, length, ◌==◌, String,
}
use doxx.Batch.{SyncEvent}
use doxx.Crm.{CrmApplyResult, CrmBatchApplyResult}
use doxx.Crm.Answers.{TextOps, Answering}
use doxx.Crm.Classify.{Classified, classified, malformed_batch_response}
use doxx.Transport.{
  Http, Network, HttpSettings, from_business, send_one_event, send_each, retry_item, retry_items,
  retry_retryable_items_in_batch, send_singly, take_classified, batch_refused, send_together,
  send_batch_events, without_batches,
}
use doxx.Crm.Laws.{classify_batch_sync_response_lem}
use doxx.Transport.Results.{Fits, classified_right}
use doxx.Transport.Cost.{
  Costs, costs, cost, pure-Costs, raise-Costs, more-Costs, branch-Costs, bind-Costs, catch-Costs,
  either-Costs, tries, request-Costs, client-Costs,
}

module _ (net : Network) (cfg : HttpSettings) (py : TextOps) (settings : Answering) where
  -- What the requests for each of the events may cost.
  abbrev each : List SyncEvent → ℕ
  each events = length events * tries net cfg

  one-Costs : (e : SyncEvent) → Costs (tries net cfg) (send_one_event net cfg py settings e)
  unfolding send_one_event from_business
  one-Costs e =
      more-Costs _ (tries net cfg)
        (bind-Costs 0 _ _ _ (client-Costs net cfg) (λ _.
          catch-Costs _ 0 _ _ (bind-Costs _ 0 _ _ (request-Costs net cfg) (λ r. pure-Costs 0 _))
            (λ status. pure-Costs 0 _)))
        (omega arith)

  each-Costs :
      (events : List SyncEvent) → Costs (each events) (send_each net cfg py settings events)
  unfolding send_each
  each-Costs [] = pure-Costs _ _
  each-Costs (e ∷ events) =
      more-Costs _ _
        (bind-Costs _ _ _ _ (one-Costs e)
          (λ item. bind-Costs _ 0 _ _ (each-Costs events) (λ items. pure-Costs 0 _)))
        (omega arith)

  item-Costs :
      (e : SyncEvent) (item : CrmApplyResult)
      → Costs (tries net cfg) (retry_item net cfg py settings e item)
  unfolding retry_item
  item-Costs e item =
      branch-Costs _ (item.success || not item.retryable) _ _ (pure-Costs _ item) (one-Costs e)

  items-Costs :
      (events : List SyncEvent) (items : List CrmApplyResult)
      → Costs (each events) (retry_items net cfg py settings events items)
  unfolding retry_items
  items-Costs [] items = pure-Costs _ _
  items-Costs (e ∷ events) [] = pure-Costs _ _
  items-Costs (e ∷ events) (item ∷ items) =
      more-Costs _ _
        (bind-Costs _ _ _ _ (item-Costs e item)
          (λ new. bind-Costs _ 0 _ _ (items-Costs events items) (λ news. pure-Costs 0 _)))
        (omega arith)

  retry-Costs :
      (events : List SyncEvent) (batch : CrmBatchApplyResult)
      → Costs (each events) (retry_retryable_items_in_batch net cfg py settings events batch)
  unfolding retry_retryable_items_in_batch
  retry-Costs events batch =
      branch-Costs _ (not cfg.retry_only_retryable_items) _ _ (pure-Costs _ batch) (
        more-Costs _ _
          (bind-Costs _ 0 _ _ (items-Costs events batch.items) (λ items. pure-Costs 0 _))
          (omega arith))

  singly-Costs :
      (status : Option ℕ) (code : Option String) (events : List SyncEvent)
      → Costs (each events + each events) (send_singly net cfg py settings status code events)
  unfolding send_singly
  singly-Costs status code events =
      bind-Costs _ _ _ _ (each-Costs events) (λ items. retry-Costs events _)

  refused-Costs :
      (events : List SyncEvent) (status : ℕ)
      → Costs (each events + each events) (batch_refused net cfg py settings events status)
  unfolding batch_refused
  refused-Costs events status =
      branch-Costs _ (status == 404 || status == 501) _ _
        (costs λ h. cost _ (without_batches net cfg py settings h) (singly-Costs _ _ events))
        (pure-Costs _ _)

  classified-Costs :
      (events : List SyncEvent) (c : Classified)
      → Costs (each events) (take_classified net cfg py settings events c)
  unfolding take_classified
  classified-Costs events (classified batch) = retry-Costs events batch
  classified-Costs events (malformed_batch_response batch) = raise-Costs _ _

  together-Costs :
      (events : List SyncEvent)
      → Costs
          (tries net cfg + (each events + each events))
          (send_together net cfg py settings events)
  unfolding send_together
  together-Costs events =
      more-Costs _ _
        (bind-Costs 0 _ _ _ (client-Costs net cfg) (λ _.
          either-Costs (Fits py events) (Fits py events) (each events + each events) _ _ _ _
            (request-Costs net cfg)
            (λ r. (
              more-Costs _ _ (classified-Costs events _) (omega arith),
              classified_right py settings net cfg ⊥ events _
                  (classify_batch_sync_response_lem py settings events r.status_code r.body),
            ))
            (refused-Costs events)))
        (omega arith)

  batch-Costs :
      (events : List SyncEvent)
      → Costs
          (tries net cfg + (each events + each events))
          (send_batch_events net cfg py settings events)
  unfolding send_batch_events
  batch-Costs [] = pure-Costs _ _
  batch-Costs (e ∷ events) = costs λ h. cost _ h (
      branch-Costs _ h.batch_supported _ _ (together-Costs (e ∷ events))
        (more-Costs _ _ (singly-Costs none none (e ∷ events)) (omega arith)))

  -- However the network replies, a batch makes at most one request for all its events and two for
  -- each of them, each with its retries: (1 + 2 n) (retry_attempts + 1) requests for n events.
  pub requests-send_batch_events :
      (events : List SyncEvent) (h : Http)
      → ((send_batch_events net cfg py settings events h).1.requests
          ≤ h.requests + (1 + 2 * length events) * (cfg.retry_attempts + 1))
  requests-send_batch_events events h = omega (arith, cost _ h (batch-Costs events))
