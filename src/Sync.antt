-- ===== src/Sync.antt =====
-- `SyncPipeline` of infrastructure/pipelines/sync_pipeline.py: it queues each new event, sends the
-- queue in batches and settles every event by the CRM's result. `Items` settles one event, `Rounds`
-- is a flush and the loops around it. The journal of what was sent (Recency.Journal) is only
-- written for the log, which is left out with the traces; a round reads the clock once.
pub mod Items
pub mod Rounds
pub mod Held
pub mod Exact
pub mod Runs
pub mod Work
pub mod Drain
pub mod Closing
pub mod Lost
pub mod Settled
pub mod Applied
pub mod Tests
use doxx.Base.{ℕ, ◌+◌, String, Bool, List, [], ◌∷◌, length, ◌||◌, false, ◌=s=◌}
use doxx.Batch.{Coordinator, SyncEvent}
use doxx.Crm.{CrmBatchApplyResult}
use doxx.Reconcile.{Reconciling}
use doxx.Recency.Bridge.{Config, Rows}
use doxx.Recency.Registry.{Registry}

pub record Settings : Type 0 where
  pub identity : Config
  pub reconciling : Reconciling
  pub sync_dedupe_in_memory : Bool
  pub batch_size : ℕ
  pub max_retryable_per_flush : ℕ
  pub buffer_flush_seconds : ℕ
  pub max_event_attempts : ℕ
  pub stop_on_malformed_response : Bool
  pub transport_fail_fast : Bool
  pub allow_partial_batch_success : Bool
  pub requeue_retryable_items : Bool
  pub requeue_retryable_once : Bool
  pub reconcile_max_attempts : ℕ

-- The counters of `SyncMetricsCollector` that the pipeline raises; those that it raises together
-- are one here.
pub record Metrics : Type 0 where
  pub items_seen : ℕ
  pub items_deduped : ℕ
  pub duplicate_payload_skips : ℕ
  pub batch_flushes : ℕ
  pub items_sent : ℕ
  pub items_synced : ℕ
  pub items_failed : ℕ
  pub items_retryable : ℕ
  pub items_rejected : ℕ
  pub items_requeued : ℕ
  pub partial_failures : ℕ
  pub malformed_responses : ℕ
  pub transport_failures : ℕ

pub record Pipeline : Type 0 where
  pub coordinator : Coordinator
  pub registry : Registry
  pub identity_bridge : Rows
  pub attempts : List (String × ℕ)
  pub requeued_event_ids : List String
  pub reconcile_resend_counts : List (String × ℕ)
  pub batch_seq : ℕ
  pub metrics : Metrics

-- What `send_batch_events` does: it returns, or raises one of three kinds of exception; a malformed
-- response may carry a batch.
pub data Sent : Type 0 where
  answered : CrmBatchApplyResult → Sent
  malformed_bare : Sent
  malformed : CrmBatchApplyResult → Sent
  transport_error : Sent
  unexpected_error : Sent

-- The transport's answer to the batch of each number, the feature flag `replay_reconciliation` by
-- event, and the fresh id of the event that stands for another on its n-th resend.
pub record World : Type 0 where
  pub send_batch_events : ℕ → List SyncEvent → Sent
  pub is_feature_enabled : SyncEvent → Bool
  pub new_event_id : SyncEvent → ℕ → String

abbrev pub mem_id : String → List String → Bool
mem_id s [] = false
mem_id s (x ∷ xs) = s =s= x || mem_id s xs
