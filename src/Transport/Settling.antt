-- ===== src/Transport/Settling.antt =====
-- A batch sent over HTTP and settled by the sync pipeline: the two files together, without the
-- pipeline's own loop.
use doxx.Base.{
  ℕ, ◌+◌, ◌≤◌, ◌<◌, ◌≡◌, refl, ◌∙◌, ap, true, false, not, ◌&&◌, none, List, [], ◌∷◌, arith, length,
  ltb, ◌==◌, if_false,
}
use doxx.Batch.{SyncEvent}
use doxx.Crm.{CrmBatchApplyResult, summarize_batch_result}
use doxx.Crm.Answers.{TextOps, Answering}
use doxx.Crm.Classify.{classified, classify_batch_sync_response}
use mathlib.Core.Path.{subst}
use doxx.Crm.Laws.{length-map, key_of, result_key}
use doxx.Transport.{
  Outcome, ok, raised, transport_error, malformed_error, Http, Network, HttpSettings, HttpResponse,
  response, no_response, send_batch_events,
}
use doxx.Transport.Results.{IsSent, send_batch_events-IsSent}
use doxx.Sync.{Settings, Pipeline, World, Sent, answered, malformed, unexpected_error}
use doxx.Sync.Rounds.{
  release_each, apply_each, count_partial, count_failed, settle_sent, finalize_batch_results,
}
use doxx.Transport.Dead.{has_retryable, send_batch_events-dead}

-- What the pipeline catches of the transport's exceptions.
abbrev pub sent_of : Outcome CrmBatchApplyResult → Sent
sent_of (ok batch) = answered batch
sent_of (raised transport_error) = doxx.Sync.transport_error
sent_of (raised (malformed_error batch)) = malformed batch
sent_of (raised _) = unexpected_error

module _ (world : World) (sync : Settings) where
  -- What the pipeline knows of the CRM's answers, and how many events it counts as settled.
  abbrev pub KeepsAnswers : Pipeline → Pipeline → Type 0
  KeepsAnswers p p' =
      (p'.registry ≡ p.registry)
      × (p'.identity_bridge ≡ p.identity_bridge)
      × (p'.metrics.items_synced ≡ p.metrics.items_synced)

  release_each-KeepsAnswers :
      (events : List SyncEvent) (p : Pipeline) → KeepsAnswers p (release_each world sync events p)
  release_each-KeepsAnswers [] p = (refl, refl, refl)
  release_each-KeepsAnswers (e ∷ events) p =
      release_each-KeepsAnswers events (doxx.Sync.Items.release world sync e p)

  error_lem :
      (now : ℕ) (events : List SyncEvent) (p : Pipeline)
      → let (p', stops) = settle_sent world sync now events doxx.Sync.transport_error p in
        KeepsAnswers p p' × (stops ≡ sync.transport_fail_fast)
  unfolding settle_sent
  error_lem now events p =
      (release_each-KeepsAnswers events (count_failed world sync 1 (length events) p), refl)

  module _ (net : Network) (cfg : HttpSettings) (py : TextOps) (settings : Answering) where
    -- When the CRM has answered a batch, one of its results can be tried again, and no further
    -- request is replied to, the retry of that one event raises an error for the batch: the pipeline
    -- remembers none of the answers, also of the events that the CRM applied, counts none as synced,
    -- and stops if it is to fail fast.
    pub unanswered_retry_forgets :
        (e : SyncEvent) (events : List SyncEvent) (h : Http) (r : HttpResponse)
        (batch : CrmBatchApplyResult) (now : ℕ) (p : Pipeline)
        → h.has_client ≡ true
        → h.batch_supported ≡ true
        → cfg.retry_only_retryable_items ≡ true
        → net.reply h.requests ≡ response r
        → (r.status_code < 400) × (net.refuses r ≡ none)
        → classify_batch_sync_response py settings (e ∷ events) r.status_code r.body
          ≡ classified batch
        → has_retryable (e ∷ events) batch.items ≡ true
        → ((i : ℕ) → h.requests + 1 ≤ i → net.reply i ≡ no_response)
        → let sent = (send_batch_events net cfg py settings (e ∷ events) h).0 in
          let (p', stops) = settle_sent world sync now (e ∷ events) (sent_of sent) p in
          (p'.registry ≡ p.registry)
          × (p'.identity_bridge ≡ p.identity_bridge)
          × (p'.metrics.items_synced ≡ p.metrics.items_synced)
          × (stops ≡ sync.transport_fail_fast)
    unanswered_retry_forgets e events h r batch now p client batches retrying got fine rows some_one
          dead =
        let gone =
          send_batch_events-dead net cfg py settings e events h r batch client batches retrying got
            fine rows some_one dead in
        let lem = error_lem now (e ∷ events) p in rw gone (lem.0.0, lem.0.1, lem.0.2, lem.1)

    -- A batch that the transport returns is settled event by event, each by its own result: there is
    -- never another number of results than of events, which the pipeline checks for.
    pub settle_sent-ok :
        (events : List SyncEvent) (h : Http) (batch : CrmBatchApplyResult) (now : ℕ) (p : Pipeline)
        → sync.allow_partial_batch_success ≡ true
        → (send_batch_events net cfg py settings events h).0 ≡ ok batch
        → let s = summarize_batch_result batch in
          let counted = count_partial world sync (ltb 0 s.failed && ltb 0 s.succeeded) p in
          settle_sent world sync now events (sent_of (ok batch)) p
          ≡ (apply_each world sync now events batch.items counted, false)
    unfolding settle_sent finalize_batch_results
    settle_sent-ok events h batch now p partial sent =
        let (keys, coherent) : IsSent py settings events (ok batch) =
          subst (IsSent py settings events) sent
            (send_batch_events-IsSent py settings net cfg events h) in
        let same : length batch.items ≡ length events = omega (
          arith,
          length-map result_key batch.items,
          length-map (key_of py) events,
          ap length keys,
        ) in
        let any_fail = ltb 0 (summarize_batch_result batch).failed in
        if_false (not (length batch.items == length events)) _ _ (ground (arith, same))
        ∙ if_false (not sync.allow_partial_batch_success && any_fail) _ _
            (ap (λ b. not b && any_fail) partial)
