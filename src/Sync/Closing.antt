-- ===== src/Sync/Closing.antt =====
-- `close_spider` empties the queue within its rounds.
use mathlib.Core.Path.{subst}
use doxx.Base.{
  ℕ, zero, suc, ◌+◌, ◌-◌, ◌≤◌, ◌<◌, ◌≡◌, refl, ap, String, Bool, true, false, not, ◌||◌, List, [],
  ◌∷◌, ◌++◌, arith, length, take, is_empty, ltb, if◌then◌else◌, Bool-cases, inl, inr, if_cases, ◌⊎◌,
}
use doxx.Batch.{
  SyncEvent, Queued, Coordinator, pop_flush_batch_with_waits, events_of, pending_len, has_work,
  mark_flushed,
}
use doxx.Batch.Flush.{from_retry, from_pending, pop_flush_batch_lem, length-pop_flush_batch}
use doxx.Batch.Counts.{Fp, held, count_fp}
use doxx.Batch.Exact.{IsExact, flush-IsExact}
use doxx.Recency.{get, put}
use doxx.Recency.Journal.{or_zero}
use doxx.Sync.{Settings, Pipeline, World}
use doxx.Sync.Held.{IsHeld, IsExact-of, hold}
use doxx.Sync.Rounds.{
  Attempts, count_attempts, drop_each, start_batch, execute_batch_send, send_popped,
  flush_one_round, close_rounds, close_spider,
}
use doxx.Sync.Exact.{
  drop_each-IsHeld, flush_one_round-IsExact, count_attempts-split, close_rounds-IsHeld, is_empty-eq,
}
use doxx.Sync.Work.{weigh, work, weigh-append, weigh-split, weigh-bounds, Within, within, bound_of}
use doxx.Sync.Drain.{drop_each-Within, settle_sent-Within}

-- The sent and the dropped events of a batch are the batch's, by number and by work.
count_attempts-weigh :
    (ids : List String) (max_attempts : ℕ) (batch : List SyncEvent) (attempts : Attempts)
    → let r = count_attempts max_attempts batch attempts in
      (weigh ids r.1 + weigh ids r.0 ≡ weigh ids batch) × (length r.1 + length r.0 ≡ length batch)
unfolding count_attempts
count_attempts-weigh ids max_attempts [] attempts = (refl, refl)
count_attempts-weigh ids max_attempts (ev ∷ batch) attempts =
    let nxt = or_zero (get ev.event_id attempts) + 1 in
    let over = ltb max_attempts nxt in
    let attempts' = if over then attempts else put ev.event_id nxt attempts in
    let (heavy, long) = count_attempts-weigh ids max_attempts batch attempts' in
    let Splits : List SyncEvent × List SyncEvent × Attempts → Type 0 = λ s.
      (weigh ids s.1 + weigh ids s.0 ≡ weigh ids (ev ∷ batch))
      × (length s.1 + length s.0 ≡ length (ev ∷ batch)) in
    if_cases Splits over (λ t. (omega (arith, heavy), omega (arith, long)))
      (λ f. (omega (arith, heavy), omega (arith, long)))

nonempty {ℓ} :
    {A : Type ℓ} (xs ys : List A)
    → (not (is_empty xs) || not (is_empty ys)) ≡ true
    → 1 ≤ length xs + length ys
nonempty [] [] h = absurd (ground arith)
nonempty [] (y ∷ ys) h = omega arith
nonempty (x ∷ xs) ys h = omega arith

length-events : (qs : List Queued) → length (events_of qs) ≡ length qs
length-events [] = refl
length-events (q ∷ qs) = omega (arith, length-events qs)

-- Without queued events no fingerprint is outstanding.
idle-held : (c : Coordinator) → has_work c ≡ false → IsExact c [] → (fp : Fp) → held fp c ≡ 0
unfolding has_work
idle-held c idle exact fp =
    let pending : c.pending ≡ [] = is_empty-eq c.pending (ground (arith, idle)) in
    let retry : c.retry ≡ [] = is_empty-eq c.retry (ground (arith, idle)) in
    omega (
      arith,
      exact fp,
      ap (λ (l : List Queued). count_fp fp (events_of l)) pending,
      ap (λ (l : List Queued). count_fp fp (events_of l)) retry,
    )

module _ (world : World) (settings : Settings) where
  send_popped-Within :
      (bound now : ℕ) (batch : List SyncEvent) (p : Pipeline)
      → settings.requeue_retryable_once ≡ true
      → IsHeld p batch
      → Within (length batch + bound) batch p
      → Within bound [] (send_popped world settings now batch p).0
  unfolding send_popped execute_batch_send start_batch mark_flushed
  send_popped-Within bound now batch p once_only held_ h =
      let Bounded : Pipeline × Bool → Type 0 = λ r. Within bound [] r.0 in
      let r = count_attempts settings.max_event_attempts batch p.attempts in
      let counted : Pipeline = record p { attempts = r.2 } in
      let ids = p.requeued_event_ids in
      let in_hand : IsHeld counted (r.1 ++ r.0) = hold counted (r.1 ++ r.0) (λ fp. omega (
        arith,
        IsExact-of p batch held_ fp,
        count_attempts-split world settings fp settings.max_event_attempts batch p.attempts,
      )) in
      let (heavy, long) = count_attempts-weigh ids settings.max_event_attempts batch p.attempts in
      let left : Within (length r.1 + (length r.0 + bound)) (r.1 ++ r.0) counted =
        within _ (r.1 ++ r.0) counted (
          omega (
            arith,
            heavy,
            long,
            weigh-append ids r.1 r.0,
            bound_of (length batch + bound) batch p h,
          )) in
      let dropped = drop_each world settings r.1 counted in
      let ready = drop_each-IsHeld world settings r.1 r.0 counted in_hand in
      let rest = drop_each-Within world settings (length r.0 + bound) r.1 r.0 counted left in
      if_cases Bounded (is_empty r.0)
        (λ none_left.
          let bare : Within (length r.0 + bound) [] dropped =
            subst (λ (es : List SyncEvent). Within (length r.0 + bound) es dropped)
              (is_empty-eq r.0 none_left) rest in
          let zero_left : length r.0 ≡ 0 = ap length (is_empty-eq r.0 none_left) in
          within bound [] dropped
            (omega (arith, zero_left, bound_of (length r.0 + bound) [] dropped bare)))
        (λ f.
          settle_sent-Within world settings bound now r.0
            (world.send_batch_events (dropped.batch_seq + 1) r.0) _ once_only
            (hold _ r.0 (IsExact-of dropped r.0 ready))
            (within _ r.0 _ (bound_of (length r.0 + bound) r.0 dropped rest)))

  -- A round that finds work leaves less of it.
  flush_one_round-work :
      (now : ℕ) (p : Pipeline)
      → settings.requeue_retryable_once ≡ true
      → 1 ≤ settings.batch_size
      → 1 ≤ settings.max_retryable_per_flush
      → IsExact p.coordinator []
      → has_work p.coordinator ≡ true
      → work (flush_one_round world settings now false p).0 < work p
  unfolding flush_one_round has_work
  flush_one_round-work now p once_only size retries exact busy =
      let c = p.coordinator in
      let ids = p.requeued_event_ids in
      let n = settings.batch_size in
      let m = settings.max_retryable_per_flush in
      let r = pop_flush_batch_with_waits n m now c in
      let (count, _) = length-pop_flush_batch n m now c in
      let one : 1 ≤ length r.0 =
        omega (arith, count, size, retries, nonempty c.pending c.retry busy) in
      let (evs, _, retry, pending, _) = pop_flush_batch_lem n m now c in
      let rs = from_retry n m in
      let ps = from_pending n m c in
      let popped : Pipeline = record p { coordinator = r.2 } in
      let all : work popped + weigh ids r.0 ≡ work p =
        rw (evs, retry, pending)
          (omega (
            arith,
            weigh-append ids (events_of (take rs c.retry)) (events_of (take ps c.pending)),
            weigh-split ids rs c.retry,
            weigh-split ids ps c.pending,
          )) in
      let (low, _) = weigh-bounds ids r.0 in
      let bound = work p - length r.0 in
      let taken = hold popped r.0 (flush-IsExact n m now c exact) in
      let left : Within (length r.0 + bound) r.0 popped =
        within _ r.0 popped (omega (arith, all, low)) in
      let Bounded : Pipeline × Bool → Type 0 = λ s. Within bound [] s.0 in
      let done_ : Within bound [] (flush_one_round world settings now false p).0 =
        if_cases Bounded (is_empty r.0)
          (λ e. absurd (omega (arith, one, ap length (is_empty-eq r.0 e))))
          (λ f. send_popped-Within bound now r.0 popped once_only taken left) in
      omega (arith, one, all, low, bound_of bound [] _ done_)

  close_rounds-work :
      (clock : ℕ → ℕ) (limit : ℕ) (p : Pipeline)
      → settings.requeue_retryable_once ≡ true
      → 1 ≤ settings.batch_size
      → 1 ≤ settings.max_retryable_per_flush
      → IsExact p.coordinator []
      → work p ≤ limit
      → let r = close_rounds world settings clock limit p in
        (r.1 ≡ true) ⊎ (has_work r.0.coordinator ≡ false)
  unfolding close_rounds
  close_rounds-work clock zero p once_only size retries exact small =
      elim (Bool-cases (has_work p.coordinator)) [
        | inl busy ↦
            absurd
              (omega (arith, small, flush_one_round-work 0 p once_only size retries exact busy))
        | inr idle ↦ inr idle
      ]
  close_rounds-work clock (suc limit) p once_only size retries exact small =
      let r = flush_one_round world settings (clock limit) false p in
      let Ends : Pipeline × Bool → Type 0 =
        λ s. (s.1 ≡ true) ⊎ (has_work s.0.coordinator ≡ false) in
      if_cases Ends (not (has_work p.coordinator)) (λ idle. inr (ground (arith, idle)))
        (λ t.
          let busy : has_work p.coordinator ≡ true = ground (arith, t) in
          let less = flush_one_round-work (clock limit) p once_only size retries exact busy in
          let next = flush_one_round-IsExact world settings (clock limit) false p exact in
          if_cases Ends r.1 (λ raised. inl refl)
            (λ f.
              close_rounds-work clock limit r.0 once_only size retries next
                (omega (arith, less, small))))

  -- Where each event is requeued at most once and a flush may take new events and retries, the 2000
  -- rounds of `close_spider` are enough for 1000 queued events: either an exception is raised, or
  -- the loop ends with both queues empty and no fingerprint outstanding.
  pub close_spider-ends :
      (clock : ℕ → ℕ) (p : Pipeline)
      → settings.requeue_retryable_once ≡ true
      → 1 ≤ settings.batch_size
      → 1 ≤ settings.max_retryable_per_flush
      → IsExact p.coordinator []
      → pending_len p.coordinator ≤ 1000
      → let r = close_spider world settings clock p in
        (r.1 ≡ true)
        ⊎ ((has_work r.0.coordinator ≡ false) × ((fp : Fp) → held fp r.0.coordinator ≡ 0))
  unfolding close_spider pending_len
  close_spider-ends clock p once_only size retries exact few =
      let c = p.coordinator in
      let ids = p.requeued_event_ids in
      let (_, new) = weigh-bounds ids (events_of c.pending) in
      let (_, old) = weigh-bounds ids (events_of c.retry) in
      let small : work p ≤ 2000 =
        omega (arith, few, new, old, length-events c.pending, length-events c.retry) in
      let end = close_rounds world settings clock 2000 p in
      let still =
        IsExact-of end.0 [] (close_rounds-IsHeld world settings clock 2000 p (hold p [] exact)) in
      elim (close_rounds-work clock 2000 p once_only size retries exact small) [
        | inl raised ↦ inl raised
        | inr idle ↦ inr (idle, λ fp. idle-held end.0.coordinator idle still fp)
      ]
