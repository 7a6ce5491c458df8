-- ===== src/Publisher/Claimed.antt =====
-- What a claim hands to the worker: messages whose events have rows, and of which no two are of
-- one event.
use doxx.Base.{
  ℕ, ◌+◌, ◌*◌, max, ◌≢◌, Bool, none, List, [], ◌∷◌, arith, String, is_empty, Bool-cases,
  Option-cases, inl, inr, leb, All, All-map_mono, All-filter, Pairwise, filter, ◌=s=◌, mem_nat,
  Ensures, Ensures-some,
}
use mathlib.Core.Path.{sym}
use text.Mathlib.TextPositions.{eq_refl}
use doxx.Table.{find}
use doxx.Store.Rows.{Time, OutboxRow, Db}
use doxx.Store.Env.{Externals}
use doxx.Store.Iso.{iso_rank, second}
use doxx.Store.Outbox.{ClaimedOutboxMessage, claim_outbox_batch, decode_rows, ready_ids, lease_ids}
use doxx.Store.Outbox.Sorting.{insert_by, order_by}
use doxx.Store.Outbox.Sorting.Laws.{All-insert_by, All-order_by}
use doxx.Store.Marking.{row_of}
use doxx.Store.Valid.{AreDistinct, IsValid}
use doxx.Store.Valid.Claims.{claim_outbox_batch-IsValid}

abbrev pub HasRow : Db → ClaimedOutboxMessage → Type 0
HasRow db m = row_of m.event_id db ≢ none

-- Two rows, or two messages, of different events.
abbrev OtherRow : OutboxRow → OutboxRow → Type 0
OtherRow r s = s.event_id ≢ r.event_id

abbrev pub OtherEvent : ClaimedOutboxMessage → ClaimedOutboxMessage → Type 0
OtherEvent m n = n.event_id ≢ m.event_id

-- What a batch of claimed messages is, over the database after the claim.
abbrev pub IsBatch : Db → List ClaimedOutboxMessage → Type 0
IsBatch db ms = All (HasRow db) ms × Pairwise OtherEvent ms

-- Every row of a table is found by a search for its event.
rows-found : (rs : List OutboxRow) → All (λ r. find (λ x. x.event_id =s= r.event_id) rs ≢ none) rs
rows-found [] = tt
rows-found (r ∷ rs) = (
  (λ e. ground (arith, e, eq_refl r.event_id)),
  All-map_mono (λ s. find (λ x. x.event_id =s= s.event_id) rs ≢ none) _
      (λ s h e. ground (arith, h, e)) rs (rows-found rs),
)

filter-OtherRow :
    (p : OutboxRow → Bool) (rs : List OutboxRow)
    → Pairwise OtherRow rs
    → Pairwise OtherRow (filter p rs)
filter-OtherRow p [] h = tt
filter-OtherRow p (r ∷ rs) h =
    let later = filter-OtherRow p rs h.1 in
    elim (Bool-cases (p r)) [
      | inl t ↦ rw t (All-filter (OtherRow r) (OtherRow r) p (λ s d k. d) rs h.0, later)
      | inr f ↦ rw f later
    ]

insert_by-OtherRow :
    (key : OutboxRow → ℕ) (r : OutboxRow) (rs : List OutboxRow)
    → All (OtherRow r) rs
    → Pairwise OtherRow rs
    → Pairwise OtherRow (insert_by key r rs)
unfolding insert_by
insert_by-OtherRow key r [] d h = (tt, tt)
insert_by-OtherRow key r (x ∷ rs) d h = elim (Bool-cases (leb (key r) (key x))) [
  | inl t ↦ rw t (d, h)
  | inr f ↦ rw f (
    All-insert_by (OtherRow x) key r rs (λ e. d.0 (sym e)) h.0,
    insert_by-OtherRow key r rs d.1 h.1,
  )
]

order_by-OtherRow :
    (key : OutboxRow → ℕ) (rs : List OutboxRow)
    → Pairwise OtherRow rs
    → Pairwise OtherRow (order_by key rs)
unfolding order_by
order_by-OtherRow key [] h = tt
order_by-OtherRow key (r ∷ rs) h =
    insert_by-OtherRow key r (order_by key rs) (All-order_by (OtherRow r) key rs h.0)
      (order_by-OtherRow key rs h.1)

-- What holds of the event of every row holds of the event of every decoded message.
decode_rows-All :
    (ext : Externals) (P : String → Type 0) (rs : List OutboxRow)
    → All (λ r. P r.event_id) rs
    → Ensures (All (λ m. P m.event_id)) (decode_rows ext rs)
unfolding decode_rows
decode_rows-All ext P [] h = tt
decode_rows-All ext P (r ∷ rs) h = elim (Option-cases (ext.loads_event r.payload_json)) [
  | inl e ↦ rw (e, decode_rows) tt
  | inr (event, e) ↦ elim (Option-cases (decode_rows ext rs)) [
    | inl e' ↦ rw (e, e', decode_rows) tt
    | inr (ms, e') ↦
        rw (e, e', decode_rows)
          (
            h.0,
            Ensures-some (All (λ (m : ClaimedOutboxMessage). P m.event_id)) _
                (decode_rows-All ext P rs h.1) e',
          )
  ]
]

decode_rows-OtherEvent :
    (ext : Externals) (rs : List OutboxRow)
    → Pairwise OtherRow rs
    → Ensures (Pairwise OtherEvent) (decode_rows ext rs)
unfolding decode_rows
decode_rows-OtherEvent ext [] h = tt
decode_rows-OtherEvent ext (r ∷ rs) h =
    let others = decode_rows-All ext (λ j. j ≢ r.event_id) rs h.0 in
    elim (Option-cases (ext.loads_event r.payload_json)) [
      | inl e ↦ rw (e, decode_rows) tt
      | inr (event, e) ↦ elim (Option-cases (decode_rows ext rs)) [
        | inl e' ↦ rw (e, e', decode_rows) tt
        | inr (ms, e') ↦
            rw (e, e', decode_rows)
              (
                Ensures-some (All (λ (m : ClaimedOutboxMessage). m.event_id ≢ r.event_id)) _ others
                    e',
                Ensures-some (Pairwise OtherEvent) _ (decode_rows-OtherEvent ext rs h.1) e',
              )
      ]
    ]

distinct-OtherRow : (rs : List OutboxRow) → Pairwise AreDistinct rs → Pairwise OtherRow rs
distinct-OtherRow [] h = tt
distinct-OtherRow (r ∷ rs) h =
    (All-map_mono (AreDistinct r) (OtherRow r) (λ s d. d.events) rs h.0, distinct-OtherRow rs h.1)

module _ (ext : Externals) (n : ℕ) (owner : String) (lease_seconds : ℕ) (now : Time) (db : Db) where
  claim-HasRow :
      let (ms, db') = claim_outbox_batch ext n owner lease_seconds now db in
      Ensures (All (HasRow db')) ms
  unfolding claim_outbox_batch
  claim-HasRow =
      let ids = ready_ids n now db in
      let db' = lease_ids ids owner (now + max lease_seconds 1 * second) now db in
      let P : OutboxRow → Type 0 = λ r. row_of r.event_id db' ≢ none in
      elim (Bool-cases (is_empty ids)) [
        | inl t ↦ rw (t, claim_outbox_batch) tt
        | inr f ↦
            rw (f, claim_outbox_batch)
              (decode_rows-All ext (λ j. row_of j db' ≢ none) _
                (All-order_by P (λ r. iso_rank r.created_at) _
                  (All-filter P P (λ r. mem_nat r.id ids) (λ r h e. h) db'.outbox
                    (rows-found db'.outbox))))
      ]

  claim-OtherEvent :
      IsValid (claim_outbox_batch ext n owner lease_seconds now db).1
      → Ensures (Pairwise OtherEvent) (claim_outbox_batch ext n owner lease_seconds now db).0
  unfolding claim_outbox_batch
  claim-OtherEvent valid =
      let ids = ready_ids n now db in
      elim (Bool-cases (is_empty ids)) [
        | inl t ↦ rw (t, claim_outbox_batch) (tt)
        | inr f ↦
            let fits = rw (f, claim_outbox_batch) at valid in
            rw (f, claim_outbox_batch)
              (decode_rows-OtherEvent ext _ (
                order_by-OtherRow (λ r. iso_rank r.created_at) _
                  (filter-OtherRow (λ r. mem_nat r.id ids) _ (distinct-OtherRow _ fits.distinct))))
      ]

  -- The messages of a claim on a valid database.
  pub claim-IsBatch :
      IsValid db
      → let (ms, db') = claim_outbox_batch ext n owner lease_seconds now db in
        IsValid db' × Ensures (All (HasRow db')) ms × Ensures (Pairwise OtherEvent) ms
  claim-IsBatch valid =
      let valid' = claim_outbox_batch-IsValid ext n owner lease_seconds now db valid in
      (valid', claim-HasRow, claim-OtherEvent valid')
