-- ===== src/Batch.antt =====
-- `BatchCoordinator` of infrastructure/sync/batch_coordinator.py: a queue of new events and a queue
-- of events to retry, with the fingerprints of all that are queued or on their way.
pub mod Flush
pub mod Counts
pub mod Fingerprints
pub mod Exact
pub mod Order
mod Tests
use doxx.Lifecycle.{EventType}
use doxx.Base.{
  ℕ, zero, suc, ◌+◌, ◌-◌, min, String, Bool, true, false, not, ◌&&◌, ◌||◌, List, [], ◌∷◌, ◌++◌, map,
  length, is_empty, leb, ◌==◌, ◌=s=◌, if◌then◌else◌,
}

-- Of a `ParserSyncEvent`: the event's id and type, and the two keys that the coordinator reads.
pub record SyncEvent : Type 0 where
  pub event_id : String
  pub event_type : EventType
  pub entity_key : String
  pub payload_hash : String

pub record Queued : Type 0 where
  pub event : SyncEvent
  pub enqueue_mono : ℕ

-- Readings of the monotonic clock are counted in its ticks.
pub record Coordinator : Type 0 where
  pub pending : List Queued
  pub retry : List Queued
  pub outstanding : List (String × String)
  pub last_flush_mono : ℕ
  pub requeue_count : ℕ

unfoldable pub fingerprint : SyncEvent → String × String
fingerprint e = (e.entity_key, e.payload_hash)

abbrev pub same_fp : String × String → String × String → Bool
same_fp (a, b) (c, d) = (a =s= c) && (b =s= d)

abbrev pub mem_fp : String × String → List (String × String) → Bool
mem_fp fp [] = false
mem_fp fp (x ∷ xs) = same_fp fp x || mem_fp fp xs

-- `set.discard`
abbrev pub discard : String × String → List (String × String) → List (String × String)
discard fp [] = []
discard fp (x ∷ xs) = let rest = discard fp xs in if same_fp fp x then rest else x ∷ rest

unfoldable pub add_event : ℕ → SyncEvent → Coordinator → Coordinator × Bool
add_event now event c = if mem_fp (fingerprint event) c.outstanding then (c, false) else (
  record c {
    outstanding = fingerprint event ∷ c.outstanding;
    pending = c.pending ++ (record { event = event; enqueue_mono = now } ∷ []);
  },
  true,
)

unfoldable pub mark_flushed : ℕ → Coordinator → Coordinator
mark_flushed now c = record c { last_flush_mono = now }

unfoldable pub pending_len : Coordinator → ℕ
pending_len c = length c.pending + length c.retry

unfoldable retry_queue_len : Coordinator → ℕ
retry_queue_len c = length c.retry

-- The clock does not run backwards, so the truncated difference is the difference.
unfoldable pub should_flush : ℕ → ℕ → ℕ → Coordinator → Bool
should_flush now interval batch_size c =
    let n = length c.pending + length c.retry in
    if n == 0
    then false
    else if leb batch_size n
    then true
    else leb interval (now - c.last_flush_mono)

-- A `while` loop that pops from the left while there is room: what it took, each with its wait,
-- and what is left.
unfoldable pub pop_up_to : ℕ → ℕ → List Queued → List SyncEvent × List ℕ × List Queued
pop_up_to now zero qs = ([], [], qs)
pop_up_to now (suc room) [] = ([], [], [])
pop_up_to now (suc room) (q ∷ qs) =
    let (evs, waits, rest) = pop_up_to now room qs in
    (q.event ∷ evs, (now - q.enqueue_mono) ∷ waits, rest)

-- The first loop stops at the batch size or at the limit on retries, the second at what is left
-- of the batch size.
unfoldable pub pop_flush_batch_with_waits :
    ℕ → ℕ → ℕ → Coordinator → List SyncEvent × List ℕ × Coordinator
pop_flush_batch_with_waits batch_size max_retryable now c =
    let (evs1, waits1, retry') = pop_up_to now (min batch_size max_retryable) c.retry in
    let (evs2, waits2, pending') = pop_up_to now (batch_size - length evs1) c.pending in
    (evs1 ++ evs2, waits1 ++ waits2, record c { retry = retry'; pending = pending' })

-- The same without the waits.
unfoldable pop_flush_batch : ℕ → ℕ → ℕ → Coordinator → List SyncEvent × Coordinator
pop_flush_batch batch_size max_retryable now c =
    let (evs, _, c') = pop_flush_batch_with_waits batch_size max_retryable now c in (evs, c')

abbrev pub enqueue_all : ℕ → List SyncEvent → List Queued
enqueue_all now [] = []
enqueue_all now (e ∷ es) = record { event = e; enqueue_mono = now } ∷ enqueue_all now es

unfoldable pub requeue_retryable : ℕ → List SyncEvent → Coordinator → Coordinator
requeue_retryable now events c = record c {
  requeue_count = c.requeue_count + length events;
  retry = c.retry ++ enqueue_all now events;
}

abbrev pub discard_all : List SyncEvent → List (String × String) → List (String × String)
discard_all [] fps = fps
discard_all (e ∷ es) fps = discard_all es (discard (fingerprint e) fps)

unfoldable pub release_fingerprints : List SyncEvent → Coordinator → Coordinator
release_fingerprints events c = record c { outstanding = discard_all events c.outstanding }

abbrev pub events_of : List Queued → List SyncEvent
events_of = map (λ q. q.event)

unfoldable pub flush_remaining : Coordinator → List SyncEvent × Coordinator
flush_remaining c = (events_of (c.retry ++ c.pending), record c { retry = []; pending = [] })

unfoldable pub has_work : Coordinator → Bool
has_work c = not (is_empty c.pending) || not (is_empty c.retry)
