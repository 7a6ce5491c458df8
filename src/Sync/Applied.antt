-- ===== src/Sync/Applied.antt =====
-- An event that comes right after the same one was applied.
use doxx.Base.{
  ℕ, ◌≡◌, refl, ap, ◌∙◌, Bool, true, false, Option, none, some, arith, if_cases, if_true,
}
use doxx.Batch.{SyncEvent}
use doxx.Crm.{CrmApplyResult}
use doxx.Recency.Bridge.{should_skip_event}
use doxx.Recency.Registry.{
  Registry, should_skip, remember_payload, remember_crm_ids, should_skip-remember_payload,
  should_skip-remember_crm_ids,
}
use doxx.Sync.{Settings, Pipeline, World}
use doxx.Sync.Items.{apply_success, settle_success, reconcile_success_apply, apply_item_result}
use doxx.Sync.Rounds.{process_item}

module _ (world : World) (settings : Settings) where
  -- Where deduplication is on, right after a success has been applied, an event with the same entity
  -- and payload that comes next is skipped: the queue stays as it is, and nothing is sent.
  pub applied_is_skipped :
      (now later : ℕ) (deferred : Bool) (e again : SyncEvent) (res merged : CrmApplyResult)
      (p : Pipeline)
      → settings.sync_dedupe_in_memory ≡ true
      → res.success ≡ true
      → (reconcile_success_apply world settings now e res p).1 ≡ some merged
      → again.entity_key ≡ e.entity_key
      → again.payload_hash ≡ e.payload_hash
      → let p' = apply_item_result world settings now e res p in
        let r = process_item world settings later deferred (some again) p' in
        (r.0.coordinator ≡ p'.coordinator) × (r.0.batch_seq ≡ p'.batch_seq) × (r.1 ≡ false)
  unfolding process_item apply_item_result apply_success
  applied_is_skipped now later deferred e again res merged p dedupe success settled key hash =
      let p' = apply_item_result world settings now e res p in
      let reconciled = reconcile_success_apply world settings now e res p in
      let q = reconciled.0 in
      let known : should_skip settings.sync_dedupe_in_memory again.entity_key again.payload_hash
            p'.registry
          ≡ true =
        let applied : p' ≡ apply_success world settings e merged q =
          if_true res.success _ _ success ∙ settled_by reconciled settled in
        rw (applied, key, hash) (sent_again q.registry) in
      let Same : Pipeline × Bool → Type 0 =
        λ r. (r.0.coordinator ≡ p'.coordinator) × (r.0.batch_seq ≡ p'.batch_seq) × (r.1 ≡ false) in
      if_cases Same
        (should_skip_event settings.identity again.entity_key again.payload_hash p'.identity_bridge)
        (λ t. (refl, refl, refl))
        (λ f.
          if_cases Same
            (should_skip settings.sync_dedupe_in_memory again.entity_key again.payload_hash
              p'.registry)
            (λ t. (refl, refl, refl)) (λ new. absurd (ground (arith, known, new))))
    where
      settled_by :
          (r : Pipeline × Option CrmApplyResult)
          → r.1 ≡ some merged
          → settle_success world settings e r ≡ apply_success world settings e merged r.0
      settled_by (q, none) h = cc
      settled_by (q, some m) h = let same : m ≡ merged = cc h in rw same refl

      sent_again :
          (registry : Registry)
          → should_skip settings.sync_dedupe_in_memory e.entity_key e.payload_hash (
              remember_crm_ids settings.identity.max_in_memory_cache e.entity_key
                (merged.crm_listing_id, merged.crm_product_id)
                merged.action
                (remember_payload settings.identity.max_in_memory_cache e.entity_key e.payload_hash
                  registry))
            ≡ true
      sent_again registry =
          let max_n = settings.identity.max_in_memory_cache in
          let ek = e.entity_key in
          let ph = e.payload_hash in
          should_skip-remember_crm_ids max_n settings.sync_dedupe_in_memory ek ek ph
            (merged.crm_listing_id, merged.crm_product_id) merged.action registry
          ∙ ap (λ b. should_skip b ek ph (remember_payload max_n ek ph registry)) dedupe
          ∙ (should_skip-remember_payload max_n ek ph registry).0
