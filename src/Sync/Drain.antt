-- ===== src/Sync/Drain.antt =====
-- The loop of `close_spider` ends because each round uses up work.
use doxx.Base.{
  ℕ, suc, ◌+◌, ◌≡◌, Bool, true, false, not, ◌&&◌, ◌||◌, Option, none, some, List, [], ◌∷◌, ◌++◌,
  arith, length, ltb, ◌==◌, if_cases,
}
use doxx.Batch.{SyncEvent}
use doxx.Crm.{CrmApplyResult, CrmBatchApplyResult, is_rejected, summarize_batch_result}
use doxx.Sync.{
  Settings, Pipeline, World, Sent, answered, malformed_bare, malformed, transport_error,
  unexpected_error, mem_id,
}
use doxx.Sync.Held.{IsHeld, IsExact-of, hold, apply_item_result-IsHeld}
use doxx.Sync.Items.{
  is_some, merge_reconciled, reconciliation, or_resend, reconcile_success_apply, apply_success,
  settle_success, count_failure, settle_failure, apply_item_result,
}
use doxx.Sync.Rounds.{release_each, drop_each, apply_each, finalize_batch_results, settle_sent}
use doxx.Sync.Lost.{resend_lem}
use doxx.Sync.Work.{Within, within, bound_of, release-Within, requeue-Within, same-Within}

module _ (world : World) (settings : Settings) where
  reconcile-Within :
      (bound now : ℕ) (e : SyncEvent) (res : CrmApplyResult) (p : Pipeline) (es : List SyncEvent)
      → IsHeld p (e ∷ es)
      → Within bound (e ∷ es) p
      → Within bound (e ∷ es) (reconcile_success_apply world settings now e res p).0
  unfolding reconcile_success_apply
  reconcile-Within bound now e res p es held h =
      let Bounded : Pipeline × Option CrmApplyResult → Type 0 = λ r. Within bound (e ∷ es) r.0 in
      let merged = merge_reconciled world settings res (reconciliation world settings e res p) in
      if_cases Bounded (not (is_some world settings res.parser_reconciliation_signal)) (λ no_. h)
        (λ yes_. if_cases Bounded (not (world.is_feature_enabled e)) (λ off. h) (λ on. go merged))
    where
      go :
          (m : Option CrmApplyResult) → Within bound (e ∷ es) (or_resend world settings now e m p).0
      go none =
          let (queue, ids, _, _, _) =
            resend_lem world settings now e es p (IsExact-of p (e ∷ es) held) in
          same-Within bound (e ∷ es) p _ queue ids h
      go (some m) = h

  settle_success-Within :
      (bound : ℕ) (e : SyncEvent) (es : List SyncEvent) (r : Pipeline × Option CrmApplyResult)
      → Within (suc bound) (e ∷ es) r.0
      → Within bound es (settle_success world settings e r)
  unfolding apply_success
  settle_success-Within bound e es (p, none) h = within bound es _ (release-Within bound e es p h)
  settle_success-Within bound e es (p, some m) h = within bound es _ (release-Within bound e es p h)

  settle_failure-Within :
      (bound now : ℕ) (e : SyncEvent) (res : CrmApplyResult) (p : Pipeline) (es : List SyncEvent)
      → settings.requeue_retryable_once ≡ true
      → Within (suc bound) (e ∷ es) p
      → Within bound es (settle_failure world settings now e res p)
  unfolding settle_failure
  settle_failure-Within bound now e res p es once_only h =
      let Bounded : Pipeline → Type 0 = λ r. Within bound es r in
      let released = release-Within bound e es p h in
      let once =
        settings.requeue_retryable_items
        && settings.requeue_retryable_once
        && not (mem_id e.event_id p.requeued_event_ids) in
      let many = settings.requeue_retryable_items && not settings.requeue_retryable_once in
      if_cases Bounded (is_rejected res.status || not res.retryable)
        (λ refused. within bound es _ released)
        (λ again.
          if_cases Bounded once
            (λ t.
              let fresh : mem_id e.event_id p.requeued_event_ids ≡ false = ground arith in
              within bound es _ (requeue-Within bound now e es p fresh h))
            (λ other.
              if_cases Bounded many (λ t. absurd (ground (arith, t, once_only)))
                (λ f. within bound es _ released)))

  apply_item_result-Within :
      (bound now : ℕ) (e : SyncEvent) (res : CrmApplyResult) (p : Pipeline) (es : List SyncEvent)
      → settings.requeue_retryable_once ≡ true
      → IsHeld p (e ∷ es)
      → Within (suc bound) (e ∷ es) p
      → Within bound es (apply_item_result world settings now e res p)
  unfolding apply_item_result count_failure
  apply_item_result-Within bound now e res p es once_only held h =
      let Bounded : Pipeline → Type 0 = λ r. Within bound es r in
      if_cases Bounded res.success
        (λ yes_.
          settle_success-Within bound e es (reconcile_success_apply world settings now e res p)
            (reconcile-Within (suc bound) now e res p es held h))
        (λ no_.
          settle_failure-Within bound now e res (count_failure world settings res p) es once_only
            (within (suc bound) (e ∷ es) _ (bound_of (suc bound) (e ∷ es) p h)))

  release_each-Within :
      (bound : ℕ) (es : List SyncEvent) (p : Pipeline)
      → Within (length es + bound) es p
      → Within bound [] (release_each world settings es p)
  release_each-Within bound [] p h = within bound [] p (omega (arith, bound_of (0 + bound) [] p h))
  release_each-Within bound (e ∷ es) p h =
      let all : Within (suc (length es + bound)) (e ∷ es) p =
        within _ (e ∷ es) p (omega (arith, bound_of (suc (length es) + bound) (e ∷ es) p h)) in
      release_each-Within bound es _ (within _ es _ (release-Within (length es + bound) e es p all))

  apply_each-Within :
      (bound now : ℕ) (es : List SyncEvent) (items : List CrmApplyResult) (p : Pipeline)
      → settings.requeue_retryable_once ≡ true
      → length items ≡ length es
      → IsHeld p es
      → Within (length es + bound) es p
      → Within bound [] (apply_each world settings now es items p)
  apply_each-Within bound now [] items p once_only len held h =
      within bound [] p (omega (arith, bound_of (0 + bound) [] p h))
  apply_each-Within bound now (e ∷ es) [] p once_only len held h = absurd (omega (arith, len))
  apply_each-Within bound now (e ∷ es) (res ∷ items) p once_only len held h =
      let all : Within (suc (length es + bound)) (e ∷ es) p =
        within _ (e ∷ es) p (omega (arith, bound_of (suc (length es) + bound) (e ∷ es) p h)) in
      apply_each-Within bound now es items (apply_item_result world settings now e res p) once_only
        (omega (arith, len)) (apply_item_result-IsHeld world settings now e res p es held)
        (apply_item_result-Within (length es + bound) now e res p es once_only held all)

  pub drop_each-Within :
      (bound : ℕ) (dropped es : List SyncEvent) (p : Pipeline)
      → Within (length dropped + bound) (dropped ++ es) p
      → Within bound es (drop_each world settings dropped p)
  drop_each-Within bound [] es p h = within bound es p (omega (arith, bound_of (0 + bound) es p h))
  drop_each-Within bound (e ∷ dropped) es p h =
      let all : Within (suc (length dropped + bound)) (e ∷ (dropped ++ es)) p =
        within _ (e ∷ (dropped ++ es)) p
          (omega (arith, bound_of (suc (length dropped) + bound) (e ∷ (dropped ++ es)) p h)) in
      drop_each-Within bound dropped es _ (
        within _ (dropped ++ es) _
          (release-Within (length dropped + bound) e (dropped ++ es) p all))

  finalize-Within :
      (bound now : ℕ) (es : List SyncEvent) (batch_res : CrmBatchApplyResult) (p : Pipeline)
      → settings.requeue_retryable_once ≡ true
      → IsHeld p es
      → Within (length es + bound) es p
      → Within bound [] (finalize_batch_results world settings now es batch_res p).0
  unfolding finalize_batch_results
  finalize-Within bound now es batch_res p once_only held h =
      let Bounded : Pipeline × Bool → Type 0 = λ r. Within bound [] r.0 in
      let same = length batch_res.items == length es in
      let any_fail = ltb 0 (summarize_batch_result batch_res).failed in
      let left = bound_of (length es + bound) es p h in
      if_cases Bounded (not same) (λ t. release_each-Within bound es _ (within _ es _ left))
        (λ matches.
          let len : length batch_res.items ≡ length es = ground arith in
          if_cases Bounded (not settings.allow_partial_batch_success && any_fail)
            (λ t. release_each-Within bound es _ (within _ es _ left))
            (λ f.
              apply_each-Within bound now es batch_res.items _ once_only len
                (hold _ es (IsExact-of p es held)) (within _ es _ left)))

  pub settle_sent-Within :
      (bound now : ℕ) (es : List SyncEvent) (sent : Sent) (p : Pipeline)
      → settings.requeue_retryable_once ≡ true
      → IsHeld p es
      → Within (length es + bound) es p
      → Within bound [] (settle_sent world settings now es sent p).0
  unfolding settle_sent
  settle_sent-Within bound now es (answered batch_res) p once_only held h =
      finalize-Within bound now es batch_res p once_only held h
  settle_sent-Within bound now es malformed_bare p once_only held h =
      release_each-Within bound es _ (within _ es _ (bound_of (length es + bound) es p h))
  settle_sent-Within bound now es (malformed batch_res) p once_only held h =
      let Bounded : Pipeline × Bool → Type 0 = λ r. Within bound [] r.0 in
      let same = length batch_res.items == length es in
      let left = bound_of (length es + bound) es p h in
      if_cases Bounded settings.stop_on_malformed_response
        (λ t. release_each-Within bound es _ (within _ es _ left))
        (λ f.
          if_cases Bounded (not same) (λ t. release_each-Within bound es _ (within _ es _ left))
            (λ t.
              finalize-Within bound now es batch_res _ once_only (hold _ es (IsExact-of p es held))
                (within _ es _ left)))
  settle_sent-Within bound now es transport_error p once_only held h =
      release_each-Within bound es _ (within _ es _ (bound_of (length es + bound) es p h))
  settle_sent-Within bound now es unexpected_error p once_only held h =
      release_each-Within bound es _ (within _ es _ (bound_of (length es + bound) es p h))
