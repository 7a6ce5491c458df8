-- ===== src/Sync/Rounds.antt =====
-- A flush of the queue, `process_item` and the loop of `close_spider`. A result's second part says
-- that an exception is raised out of the method.
use doxx.Base.{
  ℕ, zero, suc, ◌+◌, Bool, true, false, not, ◌&&◌, Option, none, some, List, [], ◌∷◌, length,
  is_empty, ltb, ◌==◌, if◌then◌else◌, String,
}
use doxx.Batch.{
  SyncEvent, add_event, mark_flushed, should_flush, pop_flush_batch_with_waits, has_work,
}
use doxx.Crm.{CrmApplyResult, CrmBatchApplyResult, summarize_batch_result}
use doxx.Recency.{get, put, forget}
use doxx.Recency.Bridge.{should_skip_event}
use doxx.Recency.Journal.{or_zero}
use doxx.Recency.Registry.{should_skip}
use doxx.Sync.{
  Settings, Pipeline, World, Sent, answered, malformed_bare, malformed, transport_error,
  unexpected_error,
}
use doxx.Sync.Items.{release, apply_item_result}

abbrev pub Attempts : Type 0
Attempts = List (String × ℕ)

-- The first loop over a batch: what is sent, what is dropped, and the attempts.
unfoldable pub count_attempts :
    ℕ → List SyncEvent → Attempts → List SyncEvent × List SyncEvent × Attempts
count_attempts max_attempts [] attempts = ([], [], attempts)
count_attempts max_attempts (ev ∷ batch) attempts =
    let nxt = or_zero (get ev.event_id attempts) + 1 in
    let over = ltb max_attempts nxt in
    let (to_send, dropped, attempts') =
      count_attempts max_attempts batch (if over then attempts else put ev.event_id nxt attempts) in
    if over then (to_send, ev ∷ dropped, attempts') else (ev ∷ to_send, dropped, attempts')

module _ (world : World) (settings : Settings) where
  -- `for ev in events: self._coordinator.release_fingerprints([ev])`
  abbrev pub release_each : List SyncEvent → Pipeline → Pipeline
  release_each [] p = p
  release_each (ev ∷ events) p = release_each events (release world settings ev p)

  abbrev pub drop_each : List SyncEvent → Pipeline → Pipeline
  drop_each [] p = p
  drop_each (ev ∷ events) p =
      let released = release world settings ev p in
      drop_each events (record released { attempts = forget ev.event_id released.attempts })

  -- `for ev, res in zip(to_send, batch_res.items)`
  abbrev pub apply_each : ℕ → List SyncEvent → List CrmApplyResult → Pipeline → Pipeline
  apply_each now [] items p = p
  apply_each now (ev ∷ events) [] p = p
  apply_each now (ev ∷ events) (res ∷ items) p =
      apply_each now events items (apply_item_result world settings now ev res p)

  abbrev pub count_malformed : Pipeline → Pipeline
  count_malformed p = record p {
    metrics = record p.metrics { malformed_responses = p.metrics.malformed_responses + 1 };
  }

  abbrev pub count_partial : Bool → Pipeline → Pipeline
  count_partial partial p = record p {
    metrics = record p.metrics {
      partial_failures = p.metrics.partial_failures + (if partial then 1 else 0);
    };
  }

  unfoldable pub finalize_batch_results :
      ℕ → List SyncEvent → CrmBatchApplyResult → Pipeline → Pipeline × Bool
  finalize_batch_results now to_send batch_res p =
      let summary = summarize_batch_result batch_res in
      let any_fail = ltb 0 summary.failed in
      let any_ok = ltb 0 summary.succeeded in
      let counted = count_partial (any_fail && any_ok) p in
      if not (length batch_res.items == length to_send)
      then (release_each to_send (count_malformed p), settings.transport_fail_fast)
      else if not settings.allow_partial_batch_success && any_fail
      then (release_each to_send counted, true)
      else (apply_each now to_send batch_res.items counted, false)

  abbrev pub count_failed : ℕ → ℕ → Pipeline → Pipeline
  count_failed transport_failures failed p = record p {
    metrics = record p.metrics {
      transport_failures = p.metrics.transport_failures + transport_failures;
      items_failed = p.metrics.items_failed + failed;
    };
  }

  -- The end of a batch, by what the transport did.
  unfoldable pub settle_sent : ℕ → List SyncEvent → Sent → Pipeline → Pipeline × Bool
  settle_sent now to_send (answered batch_res) p = finalize_batch_results now to_send batch_res p
  settle_sent now to_send malformed_bare p =
      (release_each to_send (count_malformed p), settings.stop_on_malformed_response)
  settle_sent now to_send (malformed batch_res) p =
      if settings.stop_on_malformed_response
      then (release_each to_send (count_malformed p), true)
      else if not (length batch_res.items == length to_send)
      then (release_each to_send (count_malformed p), false)
      else finalize_batch_results now to_send batch_res (count_malformed p)
  settle_sent now to_send transport_error p =
      (release_each to_send (count_failed 1 (length to_send) p), settings.transport_fail_fast)
  settle_sent now to_send unexpected_error p =
      (release_each to_send (count_failed 0 (length to_send) p), settings.transport_fail_fast)

  unfoldable pub start_batch : ℕ → List SyncEvent → Pipeline → Pipeline
  start_batch now to_send p = record p {
    batch_seq = p.batch_seq + 1;
    coordinator = mark_flushed now p.coordinator;
    metrics = record p.metrics {
      batch_flushes = p.metrics.batch_flushes + 1;
      items_sent = p.metrics.items_sent + length to_send;
    };
  }

  unfoldable pub execute_batch_send : ℕ → List SyncEvent → Pipeline → Pipeline × Bool
  execute_batch_send now to_send p =
      settle_sent now to_send (world.send_batch_events (p.batch_seq + 1) to_send)
        (start_batch now to_send p)

  -- What is left of a round after the queue is popped.
  unfoldable pub send_popped : ℕ → List SyncEvent → Pipeline → Pipeline × Bool
  send_popped now batch p =
      let (to_send, dropped, attempts') =
        count_attempts settings.max_event_attempts batch p.attempts in
      let ready = drop_each dropped (record p { attempts = attempts' }) in
      if is_empty to_send then (ready, false) else execute_batch_send now to_send ready

  -- `deferred`: the resource governance puts the flush off, by an admission that is refused or by
  -- `pause_batches` (Admission); a forced flush does not ask it.
  unfoldable pub flush_one_round : ℕ → Bool → Pipeline → Pipeline × Bool
  flush_one_round now deferred p =
      let (batch, _, coordinator') =
        pop_flush_batch_with_waits settings.batch_size settings.max_retryable_per_flush now
          p.coordinator in
      if deferred
      then (p, false)
      else if is_empty batch
      then (record p { coordinator = coordinator' }, false)
      else send_popped now batch (record p { coordinator = coordinator' })

  abbrev pub count_seen : Pipeline → Pipeline
  count_seen p = record p { metrics = record p.metrics { items_seen = p.metrics.items_seen + 1 } }

  abbrev pub count_skip : Pipeline → Pipeline
  count_skip p = record p {
    metrics = record p.metrics { duplicate_payload_skips = p.metrics.duplicate_payload_skips + 1 };
  }

  abbrev pub count_deduped : Pipeline → Pipeline
  count_deduped p = record p {
    metrics = record p.metrics { items_deduped = p.metrics.items_deduped + 1 };
  }

  unfoldable pub add_and_flush : ℕ → Bool → SyncEvent → Pipeline → Pipeline × Bool
  add_and_flush now deferred event p =
      let (coordinator', added) = add_event now event p.coordinator in
      let queued = record p { coordinator = coordinator' } in
      let due = should_flush now settings.buffer_flush_seconds settings.batch_size coordinator' in
      if not added
      then (count_skip p, false)
      else if due
      then flush_one_round now deferred queued
      else (queued, false)

  -- The event that is built of the item's normalized form; none for an item that has no such form.
  unfoldable pub process_item : ℕ → Bool → Option SyncEvent → Pipeline → Pipeline × Bool
  process_item now deferred none p = (count_seen p, false)
  process_item now deferred (some event) p =
      if should_skip_event settings.identity event.entity_key event.payload_hash p.identity_bridge
      then (count_skip (count_seen p), false)
      else if should_skip settings.sync_dedupe_in_memory event.entity_key event.payload_hash
          p.registry
      then (count_deduped (count_seen p), false)
      else add_and_flush now deferred event (count_seen p)

  -- `while self._coordinator.has_work() and rounds < limit`, with a reading of the clock for each
  -- round.
  unfoldable pub close_rounds : (ℕ → ℕ) → ℕ → Pipeline → Pipeline × Bool
  close_rounds clock zero p = (p, false)
  close_rounds clock (suc limit) p =
      let (p', raised) = flush_one_round (clock limit) false p in
      let rest = close_rounds clock limit p' in
      if not (has_work p.coordinator) then (p, false) else if raised then (p', true) else rest

  unfoldable pub close_spider : (ℕ → ℕ) → Pipeline → Pipeline × Bool
  close_spider clock p = close_rounds clock 2000 p
