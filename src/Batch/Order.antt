-- ===== src/Batch/Order.antt =====
-- New events leave the coordinator in the order in which they came.
use doxx.Base.{
  ℕ, ◌≡◌, refl, ap, sym, ◌∙◌, false, List, [], ◌∷◌, ◌++◌, append_assoc, append-nil, map, arith, All,
  All-zip, Pairwise,
}
use doxx.Batch.{
  SyncEvent, Queued, Coordinator, fingerprint, same_fp, mem_fp, add_event, events_of,
  flush_remaining,
}

-- `add_event` for each event in turn.
abbrev pub add_all : ℕ → List SyncEvent → Coordinator → Coordinator
add_all now [] c = c
add_all now (e ∷ es) c = add_all now es (add_event now e c).0

abbrev pub IsFresh : Coordinator → SyncEvent → Type 0
IsFresh c e = mem_fp (fingerprint e) c.outstanding ≡ false

-- The later event has another fingerprint.
abbrev pub IsOther : SyncEvent → SyncEvent → Type 0
IsOther e later = same_fp (fingerprint later) (fingerprint e) ≡ false

map-append {ℓ κ} :
    {A : Type ℓ} {B : Type κ} (f : A → B) (xs ys : List A) → map f (xs ++ ys) ≡ map f xs ++ map f ys
map-append f [] ys = refl
map-append f (x ∷ xs) ys = rw (map-append f xs ys)

-- What is queued after an event is added, at the end of what would be drained.
drain_added :
    (now : ℕ) (e : SyncEvent) (c : Coordinator)
    → IsFresh c e
    → ((flush_remaining (add_event now e c).0).0 ≡ (flush_remaining c).0 ++ (e ∷ []))
      × ((add_event now e c).0.outstanding ≡ fingerprint e ∷ c.outstanding)
unfolding add_event flush_remaining
drain_added now e c fresh =
    let last : List Queued = record { event = e; enqueue_mono = now } ∷ [] in
    rw fresh (
      ap events_of (sym (append_assoc c.retry c.pending last))
          ∙ map-append (λ (q : Queued). q.event) (c.retry ++ c.pending) last,
      refl,
    )

-- Events with different fingerprints, none of them outstanding, all come out of the coordinator
-- again when it is drained: after what was queued before them, and in their order.
pub flush_remaining-add_all :
    (now : ℕ) (es : List SyncEvent) (c : Coordinator)
    → Pairwise IsOther es
    → All (IsFresh c) es
    → (flush_remaining (add_all now es c)).0 ≡ (flush_remaining c).0 ++ es
flush_remaining-add_all now [] c different fresh = sym (append-nil (flush_remaining c).0)
flush_remaining-add_all now (e ∷ es) c (others, different) (new, fresh) =
    let (queue, known) = drain_added now e c new in
    let still : All (IsFresh (add_event now e c).0) es =
      All-zip
        (λ (a : SyncEvent) (other : IsOther e a) (f : IsFresh c a).
          ap (mem_fp (fingerprint a)) known ∙ ground (arith, other, f))
        es others fresh in
    flush_remaining-add_all now es (add_event now e c).0 different still
    ∙ ap (λ l. l ++ es) queue
    ∙ append_assoc (flush_remaining c).0 (e ∷ []) es
