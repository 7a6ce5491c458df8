-- ===== src/Batch/Fingerprints.antt =====
-- No event is queued or on its way twice. The caller takes events out by a flush, and ends each by
-- `requeue_retryable` or `release_fingerprints` (infrastructure/pipelines/sync_pipeline.py); the
-- events in between are the field `inflight` here.
use doxx.Base.{
  ℕ, ◌+◌, ◌≤◌, ◌≡◌, false, ◌||◌, List, [], ◌∷◌, ◌++◌, arith, take, if◌then◌else◌, Bool-cases, inl,
  inr, ◌==◌, ap,
}
use doxx.Batch.{
  SyncEvent, Coordinator, fingerprint, same_fp, mem_fp, add_event, pop_flush_batch_with_waits,
  enqueue_all, requeue_retryable, release_fingerprints, events_of, flush_remaining,
}
use doxx.Batch.Flush.{from_retry, from_pending, pop_flush_batch_lem}
use doxx.Batch.Counts.{
  Fp, count_fp, held, count_fp-append, events_of-append, count_fp-split, enqueue_all-count,
  same_fp-eq, mem_fp-discard_all, held-le,
}

-- The coordinator, and the events that the caller has.
pub record System : Type 0 where
  pub coordinator : Coordinator
  pub inflight : List SyncEvent

-- One call of the coordinator. Only events that the caller has are requeued or released.
pub data Call (batch_size max_retryable : ℕ) : System → System → Type 0 where
  add :
      (now : ℕ) (e : SyncEvent) (s : System)
      → Call batch_size max_retryable s
          (record s { coordinator = (add_event now e s.coordinator).0 })
  flush :
      (now : ℕ) (s : System)
      → Call batch_size max_retryable s (record {
        coordinator = (pop_flush_batch_with_waits batch_size max_retryable now s.coordinator).2;
        inflight =
            (pop_flush_batch_with_waits batch_size max_retryable now s.coordinator).0 ++ s.inflight;
      })
  drain :
      (s : System)
      → Call batch_size max_retryable s (record {
        coordinator = (flush_remaining s.coordinator).1;
        inflight = (flush_remaining s.coordinator).0 ++ s.inflight;
      })
  requeue :
      (now : ℕ) (before evs after : List SyncEvent) (s : System)
      → s.inflight ≡ before ++ (evs ++ after)
      → Call batch_size max_retryable s (record {
        coordinator = requeue_retryable now evs s.coordinator;
        inflight = before ++ after;
      })
  release :
      (before evs after : List SyncEvent) (s : System)
      → s.inflight ≡ before ++ (evs ++ after)
      → Call batch_size max_retryable s (record {
        coordinator = release_fingerprints evs s.coordinator;
        inflight = before ++ after;
      })

pub data Calls (batch_size max_retryable : ℕ) (start : System) : System → Type 0 where
  here : Calls batch_size max_retryable start start
  next :
      {s t : System}
      → Calls batch_size max_retryable start s
      → Call batch_size max_retryable s t
      → Calls batch_size max_retryable start t

abbrev pub everywhere : Fp → System → ℕ
everywhere fp s =
    count_fp fp (events_of s.coordinator.pending)
    + count_fp fp (events_of s.coordinator.retry)
    + count_fp fp s.inflight

abbrev pub IsUnique : System → Type 0
IsUnique s = (fp : Fp) → everywhere fp s ≤ held fp s.coordinator

-- A new event whose fingerprint is not known is the only one that has it.
add_fresh :
    (now : ℕ) (e : SyncEvent) (s : System)
    → IsUnique s
    → mem_fp (fingerprint e) s.coordinator.outstanding ≡ false
    → (fp : Fp)
    → count_fp fp
          (events_of (s.coordinator.pending ++ (record { event = e; enqueue_mono = now } ∷ [])))
        + count_fp fp (events_of s.coordinator.retry)
        + count_fp fp s.inflight
      ≤ (if same_fp fp (fingerprint e) || mem_fp fp s.coordinator.outstanding then 1 else 0)
add_fresh now e s inv fresh fp = elim (Bool-cases (same_fp fp (fingerprint e))) [
  | inl same ↦
      let eq : fp ≡ fingerprint e = same_fp-eq fp (fingerprint e) same in
      let unknown : mem_fp fp s.coordinator.outstanding ≡ false = cc (eq, fresh) in
      ground (
        arith,
        inv fp,
        unknown,
        same,
        events_of-append fp s.coordinator.pending (record { event = e; enqueue_mono = now } ∷ []),
      )
  | inr other ↦ ground (
    arith,
    inv fp,
    other,
    events_of-append fp s.coordinator.pending (record { event = e; enqueue_mono = now } ∷ []),
  )
]

add-IsUnique :
    (now : ℕ) (e : SyncEvent) (s : System)
    → IsUnique s
    → IsUnique (record s { coordinator = (add_event now e s.coordinator).0 })
unfolding add_event
add-IsUnique now e s inv fp = elim (Bool-cases (mem_fp (fingerprint e) s.coordinator.outstanding)) [
  | inl known ↦ rw known (inv fp)
  | inr fresh ↦ rw fresh (add_fresh now e s inv fresh fp)
]

module _ (batch_size max_retryable : ℕ) where
  flush-count :
      (now : ℕ) (s : System) (fp : Fp)
      → let r = pop_flush_batch_with_waits batch_size max_retryable now s.coordinator in
        everywhere fp (record { coordinator = r.2; inflight = r.0 ++ s.inflight }) ≡ everywhere fp s
  flush-count now s fp =
      let c = s.coordinator in
      let (evs, _, retry, pending, _) = pop_flush_batch_lem batch_size max_retryable now c in
      let r = from_retry batch_size max_retryable in
      let p = from_pending batch_size max_retryable c in
      rw (evs, retry, pending)
        (omega (
          arith,
          count_fp-append fp (events_of (take r c.retry) ++ events_of (take p c.pending))
              s.inflight,
          count_fp-append fp (events_of (take r c.retry)) (events_of (take p c.pending)),
          count_fp-split fp r c.retry,
          count_fp-split fp p c.pending,
        ))

  drain-count :
      (s : System) (fp : Fp)
      → let r = flush_remaining s.coordinator in
        everywhere fp (record { coordinator = r.1; inflight = r.0 ++ s.inflight }) ≡ everywhere fp s
  unfolding flush_remaining
  drain-count s fp =
      let c = s.coordinator in
      omega (
        arith,
        count_fp-append fp (events_of (c.retry ++ c.pending)) s.inflight,
        events_of-append fp c.retry c.pending,
      )

-- What the caller has, after the events that it hands back.
inflight-split :
    (fp : Fp) (before evs after : List SyncEvent) (s : System)
    → s.inflight ≡ before ++ (evs ++ after)
    → count_fp fp s.inflight ≡ count_fp fp (before ++ after) + count_fp fp evs
inflight-split fp before evs after s h = omega (
  arith,
  ap (count_fp fp) h,
  count_fp-append fp before (evs ++ after),
  count_fp-append fp evs after,
  count_fp-append fp before after,
)

requeue-count :
    (now : ℕ) (before evs after : List SyncEvent) (s : System) (fp : Fp)
    → s.inflight ≡ before ++ (evs ++ after)
    → everywhere fp (record {
      coordinator = requeue_retryable now evs s.coordinator;
      inflight = before ++ after;
    })
      ≡ everywhere fp s
unfolding requeue_retryable
requeue-count now before evs after s fp h = omega (
  arith,
  inflight-split fp before evs after s h,
  events_of-append fp s.coordinator.retry (enqueue_all now evs),
  enqueue_all-count fp now evs,
)

release-IsUnique :
    (before evs after : List SyncEvent) (s : System)
    → s.inflight ≡ before ++ (evs ++ after)
    → IsUnique s
    → IsUnique (record {
      coordinator = release_fingerprints evs s.coordinator;
      inflight = before ++ after;
    })
unfolding release_fingerprints
release-IsUnique before evs after s h inv fp =
    let split = inflight-split fp before evs after s h in
    let bound = held-le fp s.coordinator in
    elim (Bool-cases (count_fp fp evs == 0)) [
      | inl z ↦
          let none : count_fp fp evs ≡ 0 = ground arith in
          rw (mem_fp-discard_all fp evs s.coordinator.outstanding none)
            (omega (arith, none, split, inv fp))
      | inr some ↦
          let one : 1 ≤ count_fp fp evs = ground arith in omega (arith, one, split, inv fp, bound)
    ]

Call-IsUnique :
    {batch_size max_retryable : ℕ} {s t : System}
    → Call batch_size max_retryable s t
    → IsUnique s
    → IsUnique t
unfolding requeue_retryable pop_flush_batch_with_waits flush_remaining
Call-IsUnique (add now e s) inv = add-IsUnique now e s inv
Call-IsUnique {batch_size} {max_retryable} (flush now s) inv =
    λ fp. omega (arith, flush-count batch_size max_retryable now s fp, inv fp)
Call-IsUnique {batch_size} {max_retryable} (drain s) inv =
    λ fp. omega (arith, drain-count batch_size max_retryable s fp, inv fp)
Call-IsUnique (requeue now before evs after s h) inv =
    λ fp. omega (arith, requeue-count now before evs after s fp h, inv fp)
Call-IsUnique (release before evs after s h) inv = release-IsUnique before evs after s h inv

abbrev pub empty_system : System
empty_system = record {
  coordinator = record {
    pending = [];
    retry = [];
    outstanding = [];
    last_flush_mono = 0;
    requeue_count = 0;
  };
  inflight = [];
}

-- From an empty coordinator no sequence of calls leads to two events with one fingerprint that are
-- queued, queued again or with the caller, and the fingerprint of each such event is outstanding.
pub Calls-IsUnique :
    {batch_size max_retryable : ℕ} {t : System}
    → Calls batch_size max_retryable empty_system t
    → (fp : Fp) → (everywhere fp t ≤ 1) × (everywhere fp t ≤ held fp t.coordinator)
Calls-IsUnique {batch_size} {max_retryable} calls fp =
    let bound = go calls fp in (omega (arith, bound, held-le fp _), bound)
  where
    go : {t : System} → Calls batch_size max_retryable empty_system t → IsUnique t
    go here = λ fp. omega arith
    go (next calls call) = Call-IsUnique call (go calls)
