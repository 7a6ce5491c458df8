-- ===== src/Batch/Exact.antt =====
-- The outstanding fingerprints are exactly those of the events that are queued or on their way: no
-- operation loses one, and none is left behind.
use text.Mathlib.TextPositions.{eq_refl}
use doxx.Base.{
  ℕ, ◌+◌, ◌≡◌, refl, true, false, List, [], ◌∷◌, ◌++◌, arith, take, Bool-cases, inl, inr,
}
use doxx.Batch.{
  SyncEvent, Coordinator, fingerprint, same_fp, mem_fp, discard, add_event,
  pop_flush_batch_with_waits, requeue_retryable, release_fingerprints, events_of, enqueue_all,
}
use doxx.Batch.Flush.{from_retry, from_pending, pop_flush_batch_lem}
use doxx.Batch.Counts.{
  Fp, count_fp, held, same_fp-eq, mem_fp-discard, held-le, count_fp-append, events_of-append,
  count_fp-split,
}

abbrev pub queued : Fp → Coordinator → ℕ
queued fp c = count_fp fp (events_of c.pending) + count_fp fp (events_of c.retry)

-- The coordinator, and the events that the caller has taken and not yet handed back.
abbrev pub IsExact : Coordinator → List SyncEvent → Type 0
IsExact c inflight = (fp : Fp) → queued fp c + count_fp fp inflight ≡ held fp c

pub same_fp_refl : (p : Fp) → same_fp p p ≡ true
same_fp_refl (a, b) = rw (eq_refl a, eq_refl b) refl

-- An event that the caller has is known.
pub IsExact-known :
    (c : Coordinator) (e : SyncEvent) (es : List SyncEvent)
    → IsExact c (e ∷ es)
    → mem_fp (fingerprint e) c.outstanding ≡ true
IsExact-known c e es exact = ground (arith, exact (fingerprint e), same_fp_refl (fingerprint e))

discard_self : (x : Fp) (l : List Fp) → mem_fp x (discard x l) ≡ false
discard_self x [] = refl
discard_self x (y ∷ l) = elim (Bool-cases (same_fp x y)) [
  | inl t ↦ rw t (discard_self x l)
  | inr f ↦ rw (f, f) (discard_self x l)
]

pub release-IsExact :
    (c : Coordinator) (e : SyncEvent) (es : List SyncEvent)
    → IsExact c (e ∷ es)
    → IsExact (release_fingerprints (e ∷ []) c) es
unfolding release_fingerprints
release-IsExact c e es exact fp = elim (Bool-cases (same_fp fp (fingerprint e))) [
  | inl same ↦
      let eq : fp ≡ fingerprint e = same_fp-eq fp (fingerprint e) same in
      let gone : mem_fp fp (discard (fingerprint e) c.outstanding) ≡ false =
        rw eq (discard_self (fingerprint e) c.outstanding) in
      rw gone (ground (arith, exact fp, same, held-le fp c))
  | inr other ↦
      rw (mem_fp-discard fp (fingerprint e) c.outstanding other) (ground (arith, exact fp, other))
]

pub requeue-IsExact :
    (now : ℕ) (c : Coordinator) (e : SyncEvent) (es : List SyncEvent)
    → IsExact c (e ∷ es)
    → IsExact (requeue_retryable now (e ∷ []) c) es
unfolding requeue_retryable
requeue-IsExact now c e es exact fp =
    omega (arith, exact fp, events_of-append fp c.retry (enqueue_all now (e ∷ [])))

add_fresh :
    (now : ℕ) (e : SyncEvent) (c : Coordinator) (inflight : List SyncEvent)
    → IsExact c inflight
    → mem_fp (fingerprint e) c.outstanding ≡ false
    → IsExact
        (record c {
          outstanding = fingerprint e ∷ c.outstanding;
          pending = c.pending ++ (record { event = e; enqueue_mono = now } ∷ []);
        })
        inflight
add_fresh now e c inflight exact fresh fp =
    let split = events_of-append fp c.pending (record { event = e; enqueue_mono = now } ∷ []) in
    elim (Bool-cases (same_fp fp (fingerprint e))) [
      | inl same ↦
          let eq : fp ≡ fingerprint e = same_fp-eq fp (fingerprint e) same in
          let unknown : mem_fp fp c.outstanding ≡ false = cc (eq, fresh) in
          ground (arith, exact fp, unknown, same, split)
      | inr other ↦ ground (arith, exact fp, other, split)
    ]

pub add-IsExact :
    (now : ℕ) (e : SyncEvent) (c : Coordinator) (inflight : List SyncEvent)
    → IsExact c inflight
    → IsExact (add_event now e c).0 inflight
unfolding add_event
add-IsExact now e c inflight exact = elim (Bool-cases (mem_fp (fingerprint e) c.outstanding)) [
  | inl known ↦ rw known exact
  | inr fresh ↦ rw fresh (add_fresh now e c inflight exact fresh)
]

pub flush-IsExact :
    (batch_size max_retryable now : ℕ) (c : Coordinator)
    → IsExact c []
    → let r = pop_flush_batch_with_waits batch_size max_retryable now c in IsExact r.2 r.0
flush-IsExact batch_size max_retryable now c exact fp =
    let (evs, _, retry, pending, known) = pop_flush_batch_lem batch_size max_retryable now c in
    let r = from_retry batch_size max_retryable in
    let p = from_pending batch_size max_retryable c in
    rw (evs, retry, pending, known)
      (omega (
        arith,
        exact fp,
        count_fp-append fp (events_of (take r c.retry)) (events_of (take p c.pending)),
        count_fp-split fp r c.retry,
        count_fp-split fp p c.pending,
      ))
