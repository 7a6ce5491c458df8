-- ===== src/Sync/Lost.antt =====
-- A success that cannot be reconciled: the event that is to stand for it has the fingerprint of the
-- event itself, which is still outstanding.
use mathlib.Core.Path.{subst}
use doxx.Base.{
  ℕ, ◌+◌, ◌≡◌, refl, Bool, true, not, ◌&&◌, none, List, [], ◌∷◌, arith, leb, ltb, if_cases, if_true,
  if_false, ap, sym, ◌∙◌,
}
use doxx.Batch.{SyncEvent, fingerprint, mem_fp, add_event, release_fingerprints}
use doxx.Batch.Exact.{IsExact, IsExact-known}
use doxx.Crm.{CrmApplyResult}
use doxx.Recency.{get}
use doxx.Recency.Journal.{or_zero}
use doxx.Sync.{Settings, Pipeline, World}
use doxx.Sync.Items.{
  resend_event, maybe_enqueue_product_found_resend, is_some, merge_reconciled, reconciliation,
  or_resend, reconcile_success_apply, settle_success, apply_item_result,
}

add_known :
    (now : ℕ) (e : SyncEvent) (c : doxx.Batch.Coordinator)
    → mem_fp (fingerprint e) c.outstanding ≡ true
    → (add_event now e c).0 ≡ c
unfolding add_event
add_known now e c known = rw known refl

module _ (world : World) (settings : Settings) where
  -- What the resend leaves of the pipeline: only the number of attempts changes.
  pub resend_lem :
      (now : ℕ) (e : SyncEvent) (es : List SyncEvent) (p : Pipeline)
      → IsExact p.coordinator (e ∷ es)
      → let r = maybe_enqueue_product_found_resend world settings now e p in
        (r.0.coordinator ≡ p.coordinator)
        × (r.0.requeued_event_ids ≡ p.requeued_event_ids)
        × (r.0.registry ≡ p.registry)
        × (r.0.identity_bridge ≡ p.identity_bridge)
        × (r.1 ≡ (
            ltb
              (or_zero (get e.entity_key p.reconcile_resend_counts))
              settings.reconcile_max_attempts
            && settings.reconciling.allow_safe_resend_product_found))
  unfolding maybe_enqueue_product_found_resend resend_event fingerprint
  resend_lem now e es p exact =
      let n = or_zero (get e.entity_key p.reconcile_resend_counts) in
      let known = IsExact-known p.coordinator e es exact in
      let same = add_known now (resend_event world settings e (n + 1)) p.coordinator known in
      let allow = settings.reconciling.allow_safe_resend_product_found in
      let answer = ltb n settings.reconcile_max_attempts && allow in
      let Kept : Pipeline × Bool → Type 0 = λ r.
        (r.0.coordinator ≡ p.coordinator)
        × (r.0.requeued_event_ids ≡ p.requeued_event_ids)
        × (r.0.registry ≡ p.registry)
        × (r.0.identity_bridge ≡ p.identity_bridge)
        × (r.1 ≡ answer) in
      if_cases Kept (leb settings.reconcile_max_attempts n)
        (λ full. (refl, refl, refl, refl, ground (arith, full)))
        (λ room.
          if_cases Kept (not allow) (λ off. (refl, refl, refl, refl, ground (arith, off)))
            (λ on. (same, refl, refl, refl, ground (arith, room, on))))

  -- A success whose result asks for a reconciliation that does not resolve it is forgotten: its
  -- fingerprint is released, nothing is queued in its place, and neither memory of the run holds
  -- it, though the resend reports success as long as it is allowed and its limit is not reached.
  pub unresolved_is_lost :
      (now : ℕ) (e : SyncEvent) (res : CrmApplyResult) (es : List SyncEvent) (p : Pipeline)
      → IsExact p.coordinator (e ∷ es)
      → res.success ≡ true
      → is_some world settings res.parser_reconciliation_signal ≡ true
      → world.is_feature_enabled e ≡ true
      → merge_reconciled world settings res (reconciliation world settings e res p) ≡ none
      → let p' = apply_item_result world settings now e res p in
        (p'.coordinator ≡ release_fingerprints (e ∷ []) p.coordinator)
        × (p'.registry ≡ p.registry)
        × (p'.identity_bridge ≡ p.identity_bridge)
        × ((maybe_enqueue_product_found_resend world settings now e p).1 ≡ (
            ltb
              (or_zero (get e.entity_key p.reconcile_resend_counts))
              settings.reconcile_max_attempts
            && settings.reconciling.allow_safe_resend_product_found))
  unfolding apply_item_result reconcile_success_apply
  unresolved_is_lost now e res es p exact success signal feature unresolved =
      let (queue, _, registry, bridge, answer) = resend_lem now e es p exact in
      let asked = is_some world settings res.parser_reconciliation_signal in
      let merged = merge_reconciled world settings res (reconciliation world settings e res p) in
      let reconciled : reconcile_success_apply world settings now e res p
          ≡ or_resend world settings now e none p =
        if_false (not asked) _ _ (ap not signal)
        ∙ if_false (not (world.is_feature_enabled e)) _ _ (ap not feature)
        ∙ ap (λ m. or_resend world settings now e m p) unresolved in
      let path : apply_item_result world settings now e res p
          ≡ settle_success world settings e (or_resend world settings now e none p) =
        if_true res.success _ _ success ∙ ap (settle_success world settings e) reconciled in
      let Lost : Pipeline → Type 0 = λ q.
        (q.coordinator ≡ release_fingerprints (e ∷ []) p.coordinator)
        × (q.registry ≡ p.registry)
        × (q.identity_bridge ≡ p.identity_bridge) in
      let lost : Lost (settle_success world settings e (or_resend world settings now e none p)) =
        (ap (release_fingerprints (e ∷ [])) queue, registry, bridge) in
      let (a, b, c) = subst Lost (sym path) lost in (a, b, c, answer)
