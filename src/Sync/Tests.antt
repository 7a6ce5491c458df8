-- ===== src/Sync/Tests.antt =====
-- A run with one phone: its first batch is answered by an error that can be tried again, the second
-- by a success without ids, which no memory of the run can resolve.
use doxx.Base.{
  ℕ, ◌≤◌, ◌≡◌, ◌⊎◌, refl, arith, true, false, ◌&&◌, some, none, List, [], ◌∷◌, ltb, zero, suc, ◌+◌,
  if◌then◌else◌,
}
use doxx.Lifecycle.{product_found, clean_id}
use doxx.Batch.{SyncEvent, pending_len, has_work, release_fingerprints, mark_flushed, fingerprint}
use doxx.Batch.Counts.{Fp, held}
use doxx.Batch.Exact.{IsExact, queued}
use doxx.Crm.{CrmApplyResult, CrmBatchApplyResult, matched, retryable_failure}
use doxx.Reconcile.{reconcile_missing_ids, reconcile_runtime}
use doxx.Recency.{get}
use doxx.Recency.Bridge.{get_runtime_ids}
use doxx.Recency.Journal.{or_zero}
use doxx.Sync.{Settings, Pipeline, World, Sent, answered}
use doxx.Sync.Items.{
  maybe_enqueue_product_found_resend, merge_reconciled, reconciliation, reconcile_success_apply,
  apply_item_result,
}
use doxx.Sync.Rounds.{process_item, flush_one_round, close_spider}
use doxx.Crm.Answers.{ResponseRow, missing, truth, text, row_looks_success, normalize_action}
use doxx.Crm.Classify.{row_to_apply_result, present_row_result, parser_signal}
use doxx.Crm.Tests.{py, defaults}
use doxx.Fingerprint.{strip_start, strip_end, is_space}
use doxx.Sync.Settled.{is_clear, synced_exactly}
use doxx.Sync.Lost.{unresolved_is_lost}
use doxx.Sync.Exact.{flush_one_round-IsExact}
use doxx.Sync.Closing.{close_spider-ends}
use doxx.Sync.Applied.{applied_is_skipped}
use doxx.Sync.Runs.{open_spider, Reached, opened, processed, Reached-IsExact, Reached-queued}

abbrev phone : SyncEvent
phone = record {
  event_id = "1";
  event_type = product_found;
  entity_key = "mediapark:1";
  payload_hash = "h1";
}

abbrev phone_again : SyncEvent
phone_again = record phone { event_id = "2" }

abbrev busy : CrmApplyResult
busy = record {
  event_id = "1";
  entity_key = "mediapark:1";
  payload_hash = "h1";
  success = false;
  status = retryable_failure;
  http_status = some 200;
  action = none;
  crm_listing_id = none;
  crm_product_id = none;
  retryable = true;
  error_code = none;
  parser_reconciliation_signal = none;
}

abbrev fine : CrmApplyResult
fine = record busy {
  success = true;
  status = matched;
  retryable = false;
  crm_listing_id = some "17";
}

abbrev without_ids : CrmApplyResult
without_ids = record fine {
  crm_listing_id = none;
  parser_reconciliation_signal = some "missing_ids";
}

abbrev batch_of : CrmApplyResult → CrmBatchApplyResult
batch_of result = record {
  items = result ∷ [];
  transport_ok = true;
  http_status = some 200;
  batch_error_code = none;
}

abbrev answers : ℕ → List SyncEvent → Sent
answers zero events = answered (batch_of busy)
answers (suc zero) events = answered (batch_of busy)
answers (suc (suc n)) events = answered (batch_of without_ids)

abbrev pub world : World
world = record {
  send_batch_events = answers;
  is_feature_enabled = λ e. true;
  new_event_id = λ e n. "3";
}

abbrev pub settings : Settings
settings = record {
  identity = record {
    mark_ignored_as_applied = true;
    skip_same_payload = true;
    max_in_memory_cache = 100;
  };
  reconciling = record {
    enable_response_loss_reconciliation = true;
    reconcile_on_missing_ids = true;
    reconcile_on_ambiguous_result = true;
    enable_runtime_reconciliation = true;
    enable_catalog_find_reconciliation = false;
    allow_safe_resend_product_found = true;
  };
  sync_dedupe_in_memory = true;
  batch_size = 1;
  max_retryable_per_flush = 1;
  buffer_flush_seconds = 5;
  max_event_attempts = 2;
  stop_on_malformed_response = true;
  transport_fail_fast = true;
  allow_partial_batch_success = true;
  requeue_retryable_items = true;
  requeue_retryable_once = true;
  reconcile_max_attempts = 1;
}

abbrev pub start : Pipeline
start = open_spider 0

abbrev one_item : Pipeline
one_item = (process_item world settings 1 false (some phone) start).0

abbrev run : Reached world settings one_item
run = processed 1 false (some phone) (opened 0)

Reached-queued_example :
    (queued ("mediapark:1", "h1") one_item.coordinator
      ≡ held ("mediapark:1", "h1") one_item.coordinator)
    × (queued ("mediapark:1", "h1") one_item.coordinator ≤ 1)
Reached-queued_example = Reached-queued world settings one_item run ("mediapark:1", "h1")

flush_one_round-IsExact_example :
    IsExact (flush_one_round world settings 2 false one_item).0.coordinator []
flush_one_round-IsExact_example =
    flush_one_round-IsExact world settings 2 false one_item (Reached-IsExact run)

-- The phone has been taken from the queue and its result has come.
abbrev in_hand : Pipeline
in_hand = record start {
  coordinator = record start.coordinator { outstanding = ("mediapark:1", "h1") ∷ [] };
}

in_hand-IsExact : IsExact in_hand.coordinator (phone ∷ [])
unfolding open_spider mark_flushed fingerprint
in_hand-IsExact fp = ground arith

no_ids_known :
    merge_reconciled world settings without_ids
      (reconciliation world settings phone without_ids in_hand)
    ≡ none
unfolding merge_reconciled reconcile_missing_ids reconcile_runtime clean_id get_runtime_ids
    open_spider
no_ids_known = refl

unresolved_is_lost_example :
    ((apply_item_result world settings 3 phone without_ids in_hand).coordinator
      ≡ release_fingerprints (phone ∷ []) in_hand.coordinator)
    × ((apply_item_result world settings 3 phone without_ids in_hand).registry ≡ in_hand.registry)
    × ((apply_item_result world settings 3 phone without_ids in_hand).identity_bridge
        ≡ in_hand.identity_bridge)
    × ((maybe_enqueue_product_found_resend world settings 3 phone in_hand).1
        ≡ (ltb (or_zero (get "mediapark:1" in_hand.reconcile_resend_counts)) 1 && true))
unresolved_is_lost_example =
    unresolved_is_lost world settings 3 phone without_ids [] in_hand in_hand-IsExact refl refl refl
      no_ids_known

-- An answer that has an id of its own, but asks for a review.
abbrev review_row : ResponseRow
review_row = record {
  success = truth true;
  status = text "ok";
  retryable = missing;
  error_code = missing;
  crm_listing_id = text "17";
  listing_id = missing;
  crm_product_id = missing;
  product_id = missing;
  action = text "needs_review";
}

synced_exactly_example :
    let res = row_to_apply_result py defaults phone 200 (some review_row) in
    (apply_item_result world settings 3 phone res in_hand).metrics.items_synced
    ≡ in_hand.metrics.items_synced
      + (if res.success && is_clear world settings phone res in_hand then 1 else 0)
synced_exactly_example =
    synced_exactly py defaults world settings (λ s h. h) 3 phone 200 (some review_row) in_hand refl

review_not_clear :
    let res = row_to_apply_result py defaults phone 200 (some review_row) in
    (res.success ≡ true)
    × (res.crm_listing_id ≡ some "17")
    × (is_clear world settings phone res in_hand ≡ false)
unfolding row_to_apply_result present_row_result parser_signal row_looks_success get_runtime_ids
    clean_id open_spider strip_start strip_end is_space normalize_action
review_not_clear = (refl, refl, refl)

-- The phone is queued again after its first send.
abbrev waiting : Pipeline
waiting = record in_hand {
  coordinator = record in_hand.coordinator {
    retry = record { event = phone; enqueue_mono = 2 } ∷ [];
  };
  requeued_event_ids = "1" ∷ [];
}

waiting-IsExact : IsExact waiting.coordinator []
unfolding open_spider mark_flushed fingerprint
waiting-IsExact fp = ground arith

few_queued : pending_len waiting.coordinator ≤ 1000
unfolding pending_len open_spider mark_flushed
few_queued = omega arith

close_spider-ends_example :
    ((close_spider world settings (λ n. 9) waiting).1 ≡ true)
    ⊎ ((has_work (close_spider world settings (λ n. 9) waiting).0.coordinator ≡ false)
        × ((fp : Fp) → held fp (close_spider world settings (λ n. 9) waiting).0.coordinator ≡ 0))
close_spider-ends_example =
    close_spider-ends world settings (λ n. 9) waiting refl (omega arith) (omega arith)
      waiting-IsExact few_queued

applied_at_once : (reconcile_success_apply world settings 3 phone fine in_hand).1 ≡ some fine
unfolding reconcile_success_apply
applied_at_once = refl

applied_is_skipped_example :
    let p' = apply_item_result world settings 3 phone fine in_hand in
    let r = process_item world settings 4 false (some phone_again) p' in
    (r.0.coordinator ≡ p'.coordinator) × (r.0.batch_seq ≡ p'.batch_seq) × (r.1 ≡ false)
applied_is_skipped_example =
    applied_is_skipped world settings 3 4 false phone phone_again fine fine in_hand refl refl
      applied_at_once refl refl
