-- ===== src/Sync/Items.antt =====
-- The settlement of one event: `_apply_item_result`, with `_reconcile_success_apply` and
-- `_maybe_enqueue_product_found_resend`.
use doxx.Base.{
  ℕ, ◌+◌, String, Bool, true, false, not, ◌&&◌, ◌||◌, Option, none, some, [], ◌∷◌, leb,
  if◌then◌else◌, ◌=s=◌,
}
use doxx.Batch.{SyncEvent, add_event, release_fingerprints, requeue_retryable}
use doxx.Lifecycle.{product_found, given}
use doxx.Crm.{CrmApplyResult, is_rejected}
use doxx.Recency.{get, put}
use doxx.Recency.Bridge.{or_else, get_runtime_ids, remember_apply_result}
use doxx.Recency.Journal.{or_zero}
use doxx.Recency.Registry.{remember_payload, remember_crm_ids}
use doxx.Reconcile.{
  ReconciliationResult, is_signal, reconcile_missing_ids, reconcile_after_ambiguous_response,
}
use doxx.Sync.{Settings, Pipeline, World, mem_id}

module _ (world : World) (settings : Settings) where
  -- `release_fingerprints([event])`
  abbrev pub release : SyncEvent → Pipeline → Pipeline
  release event p = record p { coordinator = release_fingerprints (event ∷ []) p.coordinator }

  abbrev pub requeue : ℕ → SyncEvent → Pipeline → Pipeline
  requeue now event p = record p { coordinator = requeue_retryable now (event ∷ []) p.coordinator }

  -- The event for the same item: the same store, source and payload, so the same keys.
  unfoldable pub resend_event : SyncEvent → ℕ → SyncEvent
  resend_event event n = record event {
    event_id = world.new_event_id event n;
    event_type = product_found;
  }

  unfoldable pub maybe_enqueue_product_found_resend : ℕ → SyncEvent → Pipeline → Pipeline × Bool
  maybe_enqueue_product_found_resend now event p =
      let ek = event.entity_key in
      let n = or_zero (get ek p.reconcile_resend_counts) in
      if leb settings.reconcile_max_attempts n
      then (p, false)
      else if not settings.reconciling.allow_safe_resend_product_found
      then (p, false)
      else (
        record p {
          reconcile_resend_counts = put ek (n + 1) p.reconcile_resend_counts;
          coordinator = (add_event now (resend_event event (n + 1)) p.coordinator).0;
        },
        true,
      )

  abbrev pub is_some : Option String → Bool
  is_some none = false
  is_some (some s) = not (s =s= "")

  -- The result as the reconciliation leaves it, and none where the success is not settled.
  unfoldable pub merge_reconciled : CrmApplyResult → ReconciliationResult → Option CrmApplyResult
  merge_reconciled res rec =
      if rec.resolved && (given rec.crm_listing_id || given rec.crm_product_id)
      then some (record res {
        crm_listing_id = or_else rec.crm_listing_id res.crm_listing_id;
        crm_product_id = or_else rec.crm_product_id res.crm_product_id;
        parser_reconciliation_signal = none;
      })
      else none

  abbrev pub reconciliation : SyncEvent → CrmApplyResult → Pipeline → ReconciliationResult
  reconciliation event res p =
      let ids = get_runtime_ids event.entity_key p.identity_bridge in
      if is_signal "ambiguous_action" res.parser_reconciliation_signal
      then reconcile_after_ambiguous_response settings.reconciling ids
      else reconcile_missing_ids settings.reconciling ids (some res)

  abbrev pub or_resend :
      ℕ → SyncEvent → Option CrmApplyResult → Pipeline → Pipeline × Option CrmApplyResult
  or_resend now event none p = ((maybe_enqueue_product_found_resend now event p).0, none)
  or_resend now event (some merged) p = (p, some merged)

  unfoldable pub reconcile_success_apply :
      ℕ → SyncEvent → CrmApplyResult → Pipeline → Pipeline × Option CrmApplyResult
  reconcile_success_apply now event res p =
      if not (is_some res.parser_reconciliation_signal)
      then (p, some res)
      else if not (world.is_feature_enabled event)
      then (p, some (record res { parser_reconciliation_signal = none }))
      else or_resend now event (merge_reconciled res (reconciliation event res p)) p

  -- What a success leaves in the run's memories.
  unfoldable pub apply_success : SyncEvent → CrmApplyResult → Pipeline → Pipeline
  apply_success event res p =
      let max_n = settings.identity.max_in_memory_cache in
      let paid = remember_payload max_n event.entity_key event.payload_hash p.registry in
      release event (record p {
        metrics = record p.metrics { items_synced = p.metrics.items_synced + 1 };
        registry =
            remember_crm_ids max_n event.entity_key (res.crm_listing_id, res.crm_product_id)
              res.action paid;
        identity_bridge = remember_apply_result settings.identity res p.identity_bridge;
      })

  -- A result is unresolved only with a signal, so the event is given up, not applied.
  abbrev pub settle_success : SyncEvent → Pipeline × Option CrmApplyResult → Pipeline
  settle_success event (p, none) = release event p
  settle_success event (p, some merged) = apply_success event merged p

  unfoldable pub count_failure : CrmApplyResult → Pipeline → Pipeline
  count_failure res p = record p {
    metrics = record p.metrics {
      items_failed = p.metrics.items_failed + 1;
      items_retryable = p.metrics.items_retryable + (if res.retryable then 1 else 0);
    };
  }

  abbrev pub count_requeued : Pipeline → Pipeline
  count_requeued p = record p {
    metrics = record p.metrics { items_requeued = p.metrics.items_requeued + 1 };
  }

  unfoldable pub settle_failure : ℕ → SyncEvent → CrmApplyResult → Pipeline → Pipeline
  settle_failure now event res p =
      if is_rejected res.status || not res.retryable
      then release event (record p {
        metrics = record p.metrics { items_rejected = p.metrics.items_rejected + 1 };
      })
      else if settings.requeue_retryable_items
          && settings.requeue_retryable_once
          && not (mem_id event.event_id p.requeued_event_ids)
      then requeue now event
          (count_requeued (record p { requeued_event_ids = event.event_id ∷ p.requeued_event_ids }))
      else if settings.requeue_retryable_items && not settings.requeue_retryable_once
      then requeue now event (count_requeued p)
      else release event p

  unfoldable pub apply_item_result : ℕ → SyncEvent → CrmApplyResult → Pipeline → Pipeline
  apply_item_result now event res p =
      if res.success
      then settle_success event (reconcile_success_apply now event res p)
      else settle_failure now event res (count_failure res p)
