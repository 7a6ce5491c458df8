-- ===== src/Sync/Work.antt =====
-- The work that is left in a queue: an event that may still be requeued counts two, another one.
use text.Mathlib.TextPositions.{eq_refl}
use doxx.Base.{
  ℕ, zero, suc, ◌+◌, ◌*◌, ◌≤◌, ◌≡◌, refl, ap, String, false, List, [], ◌∷◌, ◌++◌, arith, length,
  take, drop, if◌then◌else◌, if_false,
}
use doxx.Batch.{
  SyncEvent, Queued, Coordinator, release_fingerprints, requeue_retryable, enqueue_all, events_of,
}
use doxx.Sync.{Pipeline, mem_id}

-- The sends that an event may still have.
abbrev pub weight : List String → SyncEvent → ℕ
weight requeued e = if mem_id e.event_id requeued then 1 else 2

abbrev pub weigh : List String → List SyncEvent → ℕ
weigh requeued [] = 0
weigh requeued (e ∷ es) = weight requeued e + weigh requeued es

abbrev pub weigh_queue : List String → Coordinator → ℕ
weigh_queue requeued c = weigh requeued (events_of c.pending) + weigh requeued (events_of c.retry)

abbrev pub work : Pipeline → ℕ
work p = weigh_queue p.requeued_event_ids p.coordinator

module _ (ids : List String) where
  pub weigh-append : (xs ys : List SyncEvent) → weigh ids (xs ++ ys) ≡ weigh ids xs + weigh ids ys
  weigh-append [] ys = omega arith
  weigh-append (x ∷ xs) ys = omega (arith, weigh-append xs ys)

  weigh-events :
      (xs ys : List Queued)
      → weigh ids (events_of (xs ++ ys)) ≡ weigh ids (events_of xs) + weigh ids (events_of ys)
  weigh-events [] ys = omega arith
  weigh-events (x ∷ xs) ys = omega (arith, weigh-events xs ys)

  pub weigh-split :
      (n : ℕ) (qs : List Queued)
      → weigh ids (events_of (take n qs)) + weigh ids (events_of (drop n qs))
        ≡ weigh ids (events_of qs)
  weigh-split zero qs = omega arith
  weigh-split (suc n) [] = omega arith
  weigh-split (suc n) (q ∷ qs) = omega (arith, weigh-split n qs)

  -- Each event counts at least one and at most two.
  pub weigh-bounds :
      (es : List SyncEvent) → (length es ≤ weigh ids es) × (weigh ids es ≤ 2 * length es)
  weigh-bounds [] = (omega arith, omega arith)
  weigh-bounds (e ∷ es) =
      let (low, high) = weigh-bounds es in (ground (arith, low), ground (arith, high))

  -- One more requeued event makes nothing heavier.
  weigh_mono : (id : String) (es : List SyncEvent) → weigh (id ∷ ids) es ≤ weigh ids es
  weigh_mono id [] = omega arith
  weigh_mono id (e ∷ es) = ground (arith, weigh_mono id es)

-- The work that is left, with the events in hand, is within a bound.
unfoldable pub Within : ℕ → List SyncEvent → Pipeline → Type 0
Within bound es p = work p + weigh p.requeued_event_ids es ≤ bound

pub within :
    (bound : ℕ) (es : List SyncEvent) (p : Pipeline)
    → work p + weigh p.requeued_event_ids es ≤ bound
    → Within bound es p
unfolding Within
within bound es p h = h

pub bound_of :
    (bound : ℕ) (es : List SyncEvent) (p : Pipeline)
    → Within bound es p
    → work p + weigh p.requeued_event_ids es ≤ bound
unfolding Within
bound_of bound es p h = h

-- Handing an event back: by its release, and by a requeue, which counts the event as requeued.
pub release-Within :
    (bound : ℕ) (e : SyncEvent) (es : List SyncEvent) (p : Pipeline)
    → Within (suc bound) (e ∷ es) p
    → work (record p { coordinator = release_fingerprints (e ∷ []) p.coordinator })
        + weigh p.requeued_event_ids es
      ≤ bound
unfolding release_fingerprints Within
release-Within bound e es p h = ground (arith, h)

pub requeue-Within :
    (bound now : ℕ) (e : SyncEvent) (es : List SyncEvent) (p : Pipeline)
    → mem_id e.event_id p.requeued_event_ids ≡ false
    → Within (suc bound) (e ∷ es) p
    → weigh_queue (e.event_id ∷ p.requeued_event_ids) (requeue_retryable now (e ∷ []) p.coordinator)
        + weigh (e.event_id ∷ p.requeued_event_ids) es
      ≤ bound
unfolding requeue_retryable Within
requeue-Within bound now e es p fresh h =
    let ids = p.requeued_event_ids in
    let c = p.coordinator in
    let once : weight (e.event_id ∷ ids) e ≡ 1 = rw (eq_refl e.event_id) refl in
    omega (
      arith,
      if_false {A = ℕ} (mem_id e.event_id ids) 1 2 fresh,
      once,
      weigh-events (e.event_id ∷ ids) c.retry (enqueue_all now (e ∷ [])),
      weigh_mono ids e.event_id (events_of c.pending),
      weigh_mono ids e.event_id (events_of c.retry),
      weigh_mono ids e.event_id es,
      h,
    )

pub same-Within :
    (bound : ℕ) (es : List SyncEvent) (p q : Pipeline)
    → q.coordinator ≡ p.coordinator
    → q.requeued_event_ids ≡ p.requeued_event_ids
    → Within bound es p
    → Within bound es q
unfolding Within
same-Within bound es p q queue ids h =
    let by_queue = ap (λ (c : Coordinator). weigh_queue q.requeued_event_ids c) queue in
    let by_ids = ap (λ (l : List String). weigh_queue l p.coordinator + weigh l es) ids in
    omega (arith, by_queue, by_ids, h)
