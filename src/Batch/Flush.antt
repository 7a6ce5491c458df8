-- ===== src/Batch/Flush.antt =====
-- What a flush takes from the two queues, and what it leaves.
use doxx.Base.{
  ℕ, zero, suc, ◌+◌, ◌-◌, ◌≤◌, ◌<◌, min, ◌≡◌, refl, ap, true, List, [], ◌∷◌, ◌++◌, map, arith,
  length, take, drop, length-append, length-take, length-drop,
}
use doxx.Batch.{
  Queued, Coordinator, pop_up_to, pop_flush_batch_with_waits, events_of, pending_len, should_flush,
}

pop_up_to_lem :
    (now room : ℕ) (qs : List Queued)
    → let (evs, waits, rest) = pop_up_to now room qs in
      (evs ≡ events_of (take room qs))
      × (rest ≡ drop room qs)
      × (waits ≡ map (λ q. now - q.enqueue_mono) (take room qs))
unfolding pop_up_to
pop_up_to_lem now zero qs = (refl, refl, refl)
pop_up_to_lem now (suc room) [] = (refl, refl, refl)
pop_up_to_lem now (suc room) (q ∷ qs) = let (a, b, c) = pop_up_to_lem now room qs in (rw a, b, rw c)

length-events {ℓ κ} :
    {A : Type ℓ} {B : Type κ} (f : A → B) (qs : List A) → length (map f qs) ≡ length qs
length-events f [] = refl
length-events f (q ∷ qs) = omega (arith, length-events f qs)

-- The room for retries, and what is left of the batch for new events.
abbrev pub from_retry : ℕ → ℕ → ℕ
from_retry batch_size max_retryable = min batch_size max_retryable

abbrev pub from_pending : ℕ → ℕ → Coordinator → ℕ
from_pending batch_size max_retryable c =
    batch_size - length (take (from_retry batch_size max_retryable) c.retry)

-- A flush takes the oldest retries, up to the limit on retries, and then the oldest new events up
-- to the batch size, with the wait of each. What it does not take stays, in order.
pub pop_flush_batch_lem :
    (batch_size max_retryable now : ℕ) (c : Coordinator)
    → let (evs, waits, c') = pop_flush_batch_with_waits batch_size max_retryable now c in
      let r = from_retry batch_size max_retryable in
      let p = from_pending batch_size max_retryable c in
      (evs ≡ events_of (take r c.retry) ++ events_of (take p c.pending))
      × (waits
          ≡ map (λ q. now - q.enqueue_mono) (take r c.retry)
            ++ map (λ q. now - q.enqueue_mono) (take p c.pending))
      × (c'.retry ≡ drop r c.retry)
      × (c'.pending ≡ drop p c.pending)
      × (c'.outstanding ≡ c.outstanding)
unfolding pop_flush_batch_with_waits
pop_flush_batch_lem batch_size max_retryable now c =
    let r = from_retry batch_size max_retryable in
    let (evs, rest, waits) = pop_up_to_lem now r c.retry in
    let taken : length (pop_up_to now r c.retry).0 ≡ length (take r c.retry) =
      rw evs (length-events (λ q. q.event) (take r c.retry)) in
    let (evs', rest', waits') =
      pop_up_to_lem now (from_pending batch_size max_retryable c) c.pending in
    (rw (taken, evs, evs'), rw (taken, waits, waits'), rest, rw (taken, rest'), refl)

-- A flush never exceeds the batch size, and takes as many events as the size and the limit on
-- retries allow. Every queued event is either taken or still queued.
pub length-pop_flush_batch :
    (batch_size max_retryable now : ℕ) (c : Coordinator)
    → let (evs, _, c') = pop_flush_batch_with_waits batch_size max_retryable now c in
      (length evs ≡ min batch_size (min max_retryable (length c.retry) + length c.pending))
      × (length evs + pending_len c' ≡ pending_len c)
unfolding pending_len
length-pop_flush_batch batch_size max_retryable now c =
    let (evs, _, retry, pending, _) = pop_flush_batch_lem batch_size max_retryable now c in
    let r = from_retry batch_size max_retryable in
    let p = from_pending batch_size max_retryable c in
    let count : length (pop_flush_batch_with_waits batch_size max_retryable now c).0
        ≡ min r (length c.retry) + min p (length c.pending) =
      rw evs (
        omega (
          arith,
          length-append (events_of (take r c.retry)) (events_of (take p c.pending)),
          length-events (λ (q : Queued). q.event) (take r c.retry),
          length-events (λ (q : Queued). q.event) (take p c.pending),
          length-take r c.retry,
          length-take p c.pending,
        )) in
    (
      omega (arith, count, length-take r c.retry),
      omega (
        arith,
        count,
        length-take r c.retry,
        ap length retry,
        ap length pending,
        length-drop r c.retry,
        length-drop p c.pending,
      ),
    )

-- A flush that is due makes progress: with a batch size and a limit on retries of at least one, it
-- takes an event, and fewer are left.
pub flush_progress :
    (batch_size max_retryable now interval : ℕ) (c : Coordinator)
    → 1 ≤ batch_size
    → 1 ≤ max_retryable
    → should_flush now interval batch_size c ≡ true
    → let (evs, _, c') = pop_flush_batch_with_waits batch_size max_retryable now c in
      (1 ≤ length evs) × (pending_len c' < pending_len c)
unfolding should_flush pending_len
flush_progress batch_size max_retryable now interval c hb hm due =
    let some_work : 1 ≤ length c.pending + length c.retry = ground arith in
    let (taken, kept) = length-pop_flush_batch batch_size max_retryable now c in
    let one : 1 ≤ length (pop_flush_batch_with_waits batch_size max_retryable now c).0 =
      omega (arith, taken, some_work) in
    (one, omega (arith, one, kept))
