-- ===== src/Sync/Held.antt =====
-- The settlement of an event takes its fingerprint back or queues the event again.
use doxx.Base.{
  ℕ, ◌+◌, ◌≡◌, Bool, not, ◌&&◌, ◌||◌, Option, none, some, List, [], ◌∷◌, arith, length, leb,
  if_cases,
}
use doxx.Batch.{SyncEvent}
use doxx.Batch.Exact.{IsExact, release-IsExact, requeue-IsExact, add-IsExact}
use doxx.Crm.{CrmApplyResult, is_rejected}
use doxx.Recency.{get}
use doxx.Recency.Journal.{or_zero}
use doxx.Sync.{Settings, Pipeline, World, mem_id}
use doxx.Sync.Items.{
  release, resend_event, maybe_enqueue_product_found_resend, is_some, merge_reconciled,
  reconciliation, or_resend, reconcile_success_apply, apply_success, settle_success, count_failure,
  settle_failure, apply_item_result,
}
use doxx.Sync.Rounds.{release_each, apply_each}

-- The pipeline's queue, with the events that a round has in hand.
unfoldable pub IsHeld : Pipeline → List SyncEvent → Type 0
IsHeld p inflight = IsExact p.coordinator inflight

pub IsExact-of : (p : Pipeline) (es : List SyncEvent) → IsHeld p es → IsExact p.coordinator es
unfolding IsHeld
IsExact-of p es h = h

-- Only the queue counts.
pub hold : (p : Pipeline) (es : List SyncEvent) → IsExact p.coordinator es → IsHeld p es
unfolding IsHeld
hold p es h = h

module _ (world : World) (settings : Settings) where
  resend-IsHeld :
      (now : ℕ) (e : SyncEvent) (p : Pipeline) (inflight : List SyncEvent)
      → IsHeld p inflight
      → IsHeld (maybe_enqueue_product_found_resend world settings now e p).0 inflight
  unfolding maybe_enqueue_product_found_resend
  resend-IsHeld now e p inflight h =
      let n = or_zero (get e.entity_key p.reconcile_resend_counts) in
      let queue_it =
        add-IsExact now (resend_event world settings e (n + 1)) p.coordinator inflight
          (IsExact-of p inflight h) in
      let Holds : Pipeline × Bool → Type 0 = λ r. IsHeld r.0 inflight in
      if_cases Holds (leb settings.reconcile_max_attempts n) (λ full. h)
        (λ room.
          if_cases Holds (not settings.reconciling.allow_safe_resend_product_found) (λ no_. h)
            (λ yes_. hold _ inflight queue_it))

  or_resend-IsHeld :
      (now : ℕ) (e : SyncEvent) (m : Option CrmApplyResult) (p : Pipeline)
      (inflight : List SyncEvent)
      → IsHeld p inflight
      → IsHeld (or_resend world settings now e m p).0 inflight
  or_resend-IsHeld now e none p inflight h = resend-IsHeld now e p inflight h
  or_resend-IsHeld now e (some m) p inflight h = h

  reconcile-IsHeld :
      (now : ℕ) (e : SyncEvent) (res : CrmApplyResult) (p : Pipeline) (inflight : List SyncEvent)
      → IsHeld p inflight
      → IsHeld (reconcile_success_apply world settings now e res p).0 inflight
  unfolding reconcile_success_apply
  reconcile-IsHeld now e res p inflight h =
      let Holds : Pipeline × Option CrmApplyResult → Type 0 = λ r. IsHeld r.0 inflight in
      let merged = merge_reconciled world settings res (reconciliation world settings e res p) in
      if_cases Holds (not (is_some world settings res.parser_reconciliation_signal)) (λ no_. h)
        (λ yes_.
          if_cases Holds (not (world.is_feature_enabled e)) (λ off. h)
            (λ on. or_resend-IsHeld now e merged p inflight h))

  settle_success-IsHeld :
      (e : SyncEvent) (es : List SyncEvent) (r : Pipeline × Option CrmApplyResult)
      → IsHeld r.0 (e ∷ es)
      → IsHeld (settle_success world settings e r) es
  unfolding apply_success
  settle_success-IsHeld e es (p, none) h =
      hold _ es (release-IsExact p.coordinator e es (IsExact-of p (e ∷ es) h))
  settle_success-IsHeld e es (p, some m) h =
      hold _ es (release-IsExact p.coordinator e es (IsExact-of p (e ∷ es) h))

  settle_failure-IsHeld :
      (now : ℕ) (e : SyncEvent) (res : CrmApplyResult) (p : Pipeline) (es : List SyncEvent)
      → IsHeld p (e ∷ es)
      → IsHeld (settle_failure world settings now e res p) es
  unfolding settle_failure
  settle_failure-IsHeld now e res p es h =
      let Holds : Pipeline → Type 0 = λ r. IsHeld r es in
      let in_hand = IsExact-of p (e ∷ es) h in
      let released = release-IsExact p.coordinator e es in_hand in
      let requeued = requeue-IsExact now p.coordinator e es in_hand in
      let once =
        settings.requeue_retryable_items
        && settings.requeue_retryable_once
        && not (mem_id e.event_id p.requeued_event_ids) in
      let many = settings.requeue_retryable_items && not settings.requeue_retryable_once in
      if_cases Holds (is_rejected res.status || not res.retryable) (λ refused. hold _ es released)
        (λ again.
          if_cases Holds once (λ t. hold _ es requeued)
            (λ other. if_cases Holds many (λ t. hold _ es requeued) (λ f. hold _ es released)))

  pub apply_item_result-IsHeld :
      (now : ℕ) (e : SyncEvent) (res : CrmApplyResult) (p : Pipeline) (es : List SyncEvent)
      → IsHeld p (e ∷ es)
      → IsHeld (apply_item_result world settings now e res p) es
  unfolding apply_item_result count_failure
  apply_item_result-IsHeld now e res p es h =
      let Holds : Pipeline → Type 0 = λ r. IsHeld r es in
      if_cases Holds res.success
        (λ yes_.
          settle_success-IsHeld e es (reconcile_success_apply world settings now e res p)
            (reconcile-IsHeld now e res p (e ∷ es) h))
        (λ no_.
          settle_failure-IsHeld now e res (count_failure world settings res p) es
            (hold _ (e ∷ es) (IsExact-of p (e ∷ es) h)))

  pub release_each-IsHeld :
      (es : List SyncEvent) (p : Pipeline)
      → IsHeld p es
      → IsHeld (release_each world settings es p) []
  release_each-IsHeld [] p h = h
  release_each-IsHeld (e ∷ es) p h =
      release_each-IsHeld es (release world settings e p)
        (hold _ es (release-IsExact p.coordinator e es (IsExact-of p (e ∷ es) h)))

  pub apply_each-IsHeld :
      (now : ℕ) (es : List SyncEvent) (items : List CrmApplyResult) (p : Pipeline)
      → length items ≡ length es
      → IsHeld p es
      → IsHeld (apply_each world settings now es items p) []
  apply_each-IsHeld now [] items p len h = h
  apply_each-IsHeld now (e ∷ es) [] p len h = absurd (omega (arith, len))
  apply_each-IsHeld now (e ∷ es) (res ∷ items) p len h =
      apply_each-IsHeld now es items (apply_item_result world settings now e res p)
        (omega (arith, len)) (apply_item_result-IsHeld now e res p es h)
