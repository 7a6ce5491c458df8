-- ===== src/Sync/Runs.antt =====
-- The runs of a spider: from `open_spider` on, items are processed and the spider is closed, in any
-- order and whatever the transport answers. An exception ends the method and not the run.
use doxx.Base.{ℕ, ◌≤◌, ◌≡◌, Bool, Option, [], arith}
use doxx.Batch.{SyncEvent, Coordinator, mark_flushed}
use doxx.Batch.Counts.{Fp, held, held-le}
use doxx.Batch.Exact.{IsExact, queued}
use doxx.Sync.{Settings, Metrics, Pipeline, World}
use doxx.Sync.Held.{IsExact-of, hold}
use doxx.Sync.Rounds.{process_item, close_spider}
use doxx.Sync.Exact.{process_item-IsHeld, close_rounds-IsHeld}

abbrev pub empty_coordinator : ℕ → Coordinator
empty_coordinator now = record {
  pending = [];
  retry = [];
  outstanding = [];
  last_flush_mono = now;
  requeue_count = 0;
}

abbrev pub no_metrics : Metrics
no_metrics = record {
  items_seen = 0;
  items_deduped = 0;
  duplicate_payload_skips = 0;
  batch_flushes = 0;
  items_sent = 0;
  items_synced = 0;
  items_failed = 0;
  items_retryable = 0;
  items_rejected = 0;
  items_requeued = 0;
  partial_failures = 0;
  malformed_responses = 0;
  transport_failures = 0;
}

-- Everything is made anew when a spider is opened.
unfoldable pub open_spider : ℕ → Pipeline
open_spider now = record {
  coordinator = mark_flushed now (empty_coordinator now);
  registry = record {
    payload_hashes_by_entity_key = [];
    sent_pairs = [];
    crm_ids_by_entity_key = [];
    actions_by_entity_key = [];
  };
  identity_bridge = [];
  attempts = [];
  requeued_event_ids = [];
  reconcile_resend_counts = [];
  batch_seq = 0;
  metrics = no_metrics;
}

-- The pipelines that a run leads to.
pub data Reached (world : World) (settings : Settings) : Pipeline → Type 0 where
  opened : (now : ℕ) → Reached world settings (open_spider now)
  processed :
      (now : ℕ) (deferred : Bool) (event : Option SyncEvent) {p : Pipeline}
      → Reached world settings p
      → Reached world settings (process_item world settings now deferred event p).0
  closed :
      (clock : ℕ → ℕ) {p : Pipeline}
      → Reached world settings p
      → Reached world settings (close_spider world settings clock p).0

opened-IsExact : (now : ℕ) → IsExact (open_spider now).coordinator []
unfolding open_spider mark_flushed
opened-IsExact now fp = omega arith

pub Reached-IsExact :
    {world : World} {settings : Settings} {p : Pipeline}
    → Reached world settings p
    → IsExact p.coordinator []
unfolding close_spider
Reached-IsExact (opened now) = opened-IsExact now
Reached-IsExact {world} {settings} (processed now deferred event {p} run) =
    IsExact-of _ []
      (process_item-IsHeld world settings now deferred event p (hold p [] (Reached-IsExact run)))
Reached-IsExact {world} {settings} (closed clock {p} run) =
    IsExact-of _ []
      (close_rounds-IsHeld world settings clock 2000 p (hold p [] (Reached-IsExact run)))

-- At every point of a run between two calls, an outstanding fingerprint is that of exactly one
-- queued event, and the others of none: no exception and no answer of the CRM leaves a fingerprint
-- behind that would keep a product from being sent, or queues an event twice.
pub Reached-queued :
    (world : World) (settings : Settings) (p : Pipeline)
    → Reached world settings p
    → (fp : Fp) → (queued fp p.coordinator ≡ held fp p.coordinator) × (queued fp p.coordinator ≤ 1)
Reached-queued world settings p run fp =
    let exact = Reached-IsExact run fp in
    (omega (arith, exact), omega (arith, exact, held-le fp p.coordinator))
