-- ===== src/Batch/Tests.antt =====
-- A coordinator with two events.
use doxx.Base.{All, Pairwise, ◌-◌, ◌≤◌, ◌≡◌, refl, true, [], ◌∷◌, ◌++◌, map, take, drop}
use doxx.Lifecycle.{product_found}
use doxx.Batch.{
  SyncEvent, Coordinator, add_event, pop_flush_batch_with_waits, events_of, should_flush,
  fingerprint, flush_remaining,
}
use doxx.Batch.Order.{add_all, IsFresh, IsOther, flush_remaining-add_all}
use doxx.Batch.Flush.{pop_flush_batch_lem}
use doxx.Batch.Counts.{held}
use doxx.Batch.Fingerprints.{
  System, here, next, add, flush, empty_system, everywhere, Calls-IsUnique,
}

abbrev phone : SyncEvent
phone = record {
  event_id = "1";
  event_type = product_found;
  entity_key = "mediapark:1";
  payload_hash = "h1";
}

-- The same payload again, as another event.
abbrev phone_again : SyncEvent
phone_again = record {
  event_id = "2";
  event_type = product_found;
  entity_key = "mediapark:1";
  payload_hash = "h1";
}

abbrev one_queued : Coordinator
one_queued = record {
  pending = record { event = phone; enqueue_mono = 5 } ∷ [];
  retry = record { event = phone_again; enqueue_mono = 3 } ∷ [];
  outstanding = ("mediapark:1", "h1") ∷ [];
  last_flush_mono = 0;
  requeue_count = 0;
}

pop_flush_batch_lem_example :
    ((pop_flush_batch_with_waits 10 5 7 one_queued).0
      ≡ events_of (take 5 one_queued.retry) ++ events_of (take 9 one_queued.pending))
    × ((pop_flush_batch_with_waits 10 5 7 one_queued).1
        ≡ map (λ q. 7 - q.enqueue_mono) (take 5 one_queued.retry)
          ++ map (λ q. 7 - q.enqueue_mono) (take 9 one_queued.pending))
    × ((pop_flush_batch_with_waits 10 5 7 one_queued).2.retry ≡ drop 5 one_queued.retry)
    × ((pop_flush_batch_with_waits 10 5 7 one_queued).2.pending ≡ drop 9 one_queued.pending)
    × ((pop_flush_batch_with_waits 10 5 7 one_queued).2.outstanding ≡ one_queued.outstanding)
pop_flush_batch_lem_example = pop_flush_batch_lem 10 5 7 one_queued

flush_due : should_flush 7 5 10 one_queued ≡ true
unfolding should_flush
flush_due = refl

-- The event is added, flushed, added again as another event while it is on its way, and released.
abbrev after_add : System
after_add = record empty_system { coordinator = (add_event 1 phone empty_system.coordinator).0 }

abbrev after_flush : System
after_flush = record {
  coordinator = (pop_flush_batch_with_waits 10 5 2 after_add.coordinator).2;
  inflight = (pop_flush_batch_with_waits 10 5 2 after_add.coordinator).0 ++ [];
}

abbrev after_again : System
after_again = record after_flush {
  coordinator = (add_event 3 phone_again after_flush.coordinator).0;
}

Calls-IsUnique_example :
    (everywhere ("mediapark:1", "h1") after_again ≤ 1)
    × (everywhere ("mediapark:1", "h1") after_again
        ≤ held ("mediapark:1", "h1") after_again.coordinator)
Calls-IsUnique_example =
    Calls-IsUnique {batch_size = 10} {max_retryable = 5}
      (next (next (next here (add 1 phone empty_system)) (flush 2 after_add))
        (add 3 phone_again after_flush))
      ("mediapark:1", "h1")

abbrev laptop : SyncEvent
laptop = record {
  event_id = "3";
  event_type = product_found;
  entity_key = "mediapark:2";
  payload_hash = "h2";
}

two_different : Pairwise IsOther (phone ∷ laptop ∷ [])
unfolding fingerprint
two_different = ((refl, tt), (tt, tt))

two-IsFresh : All (IsFresh empty_system.coordinator) (phone ∷ laptop ∷ [])
two-IsFresh = (refl, (refl, tt))

flush_remaining-add_all_example :
    (flush_remaining (add_all 4 (phone ∷ laptop ∷ []) empty_system.coordinator)).0
    ≡ (flush_remaining empty_system.coordinator).0 ++ (phone ∷ laptop ∷ [])
flush_remaining-add_all_example =
    flush_remaining-add_all 4 (phone ∷ laptop ∷ []) empty_system.coordinator two_different
      two-IsFresh
