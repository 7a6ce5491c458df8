-- ===== src/Store/Valid/Enqueues.antt =====
-- The outbox row of a persisted product: with it the store is valid again.
use doxx.Base.{
  ℕ, suc, ◌≤◌, ◌≡◌, refl, ◌≢◌, false, some, List, [], ◌∷◌, ◌++◌, arith, ◌==◌, ◌=s=◌, String,
  Bool-cases, Option-cases, inl, inr, All, Pairwise, All-map_mono, All-zip, All-append, Ensures,
  ◌∙◌, eq_iff,
}
use doxx.Table.{
  update_where, find, exists, All-update_where, All-find, find-none, exists-false,
  Pairwise-append_one, Pairwise-update_where_given,
}
use doxx.Store.Rows.{Time, pending, RawProduct, OutboxRow, Db, ScrapedProductSnapshot}
use doxx.Store.Env.{Settings}
use doxx.Store.Event.{Target}
use doxx.Store.Enqueue.{fresh_row, reset_row, product_taken, upsert_outbox_row}
use doxx.Store.Persist.{set_pending}
use doxx.Store.Valid.{AreDistinct, state_of, FitsProducts, IsValid}
use doxx.Store.Valid.Persists.{IsPrepared}
use doxx.Store.States.{state_of-update}

-- Among the rows, to have the id of `row` is to be of the event.
abbrev SameEvent : OutboxRow → String → OutboxRow → Type 0
SameEvent row event_id r = (r.id == row.id) ≡ (r.event_id =s= event_id)

find-SameEvent :
    (event_id : String) (rs : List OutboxRow) {row : OutboxRow}
    → Pairwise AreDistinct rs
    → find (λ r. r.event_id =s= event_id) rs ≡ some row
    → All (SameEvent row event_id) rs
find-SameEvent event_id [] h e = tt
find-SameEvent event_id (x ∷ rs) {row} h e = elim (Bool-cases (x.event_id =s= event_id)) [
  | inl t ↦
      let found : some x ≡ some row = rw t at e in
      let same : x ≡ row = cc found in
      (
        ground (arith, same),
        All-map_mono (AreDistinct x) (SameEvent row event_id)
            (λ r d. ground (
              arith,
              d.ids,
              d.events,
              same,
              eq_iff r.event_id event_id,
              eq_iff x.event_id event_id,
            ))
            rs h.0,
      )
  | inr f ↦
      let later : find (λ r. r.event_id =s= event_id) rs ≡ some row = rw f at e in
      let d = All-find (AreDistinct x) (λ r. r.event_id =s= event_id) rs h.0 later in
      (ground (arith, d.ids), find-SameEvent event_id rs h.1 later)
]

module _ (cfg : Settings) (id : ℕ) (snapshot : ScrapedProductSnapshot) (event_id : String)
    (target : Target) (payload_json : String) (now : Time) where
  -- What is known of each row before the upsert, once the constraint on the product holds.
  record Known (qs : List RawProduct) (r : OutboxRow) : Type 0 where
    other : r.raw_product_id ≢ id → FitsProducts qs r
    free : product_taken id event_id r ≡ false

  module _ (db : Db) (h : IsPrepared id db) (known : All (Known db.products) db.outbox) where
    enqueued-IsValid :
        All (λ r. (r.event_id =s= event_id) ≡ false) db.outbox
        → IsValid (record db {
          outbox =
              db.outbox
              ++ (fresh_row cfg (suc db.outbox_seq) id snapshot event_id target payload_json now
                  ∷ []);
          outbox_seq = suc db.outbox_seq;
        })
    unfolding fresh_row product_taken
    enqueued-IsValid new = record {
      distinct = Pairwise-append_one AreDistinct db.outbox _ h.distinct (
          All-zip {P = λ r. Known db.products r × ((r.event_id =s= event_id) ≡ false)}
            (λ r kn le. record {
              ids = omega arith;
              products = ground (arith, kn.0.free);
              events = ground (arith, eq_iff r.event_id event_id);
            })
            db.outbox (All-zip (λ r k n. (k, n)) db.outbox known new) h.outbox_ids);
      fits =
          All-append (FitsProducts db.products) db.outbox _
            (All-zip {P = Known db.products} (λ r k n. k.other (ground (arith, k.free))) db.outbox
              known new)
            (record { mirrored = h.state; leased = (refl, refl) }, tt);
      outbox_ids =
          All-append (λ r. r.id ≤ suc db.outbox_seq) db.outbox _
            (All-map_mono (λ r. r.id ≤ db.outbox_seq) (λ r. r.id ≤ suc db.outbox_seq)
              (λ r le. omega arith) db.outbox h.outbox_ids)
            (omega arith, tt);
      product_ids = h.product_ids;
    }

    reset-IsValid :
        (row : OutboxRow)
        → All (SameEvent row event_id) db.outbox
        → IsValid (record db {
          outbox =
              update_where
                (λ r. r.id == row.id)
                (reset_row cfg id snapshot target payload_json now)
                db.outbox;
        })
    unfolding reset_row product_taken
    reset-IsValid row same = record {
      distinct =
          Pairwise-update_where_given AreDistinct
            (λ r. Known db.products r × SameEvent row event_id r) (λ r. r.id == row.id)
            (reset_row cfg id snapshot target payload_json now)
            (λ r s (k, a) (l, b) d. ground (arith, k.free, l.free, d.ids, d.products, d.events))
            db.outbox (All-zip (λ r k a. (k, a)) db.outbox known same) h.distinct;
      fits =
          All-update_where (FitsProducts db.products)
            (λ r. Known db.products r × SameEvent row event_id r) (λ r. r.id == row.id)
            (reset_row cfg id snapshot target payload_json now)
            (λ r ka. elim (Bool-cases (r.id == row.id)) [
              | inl t ↦ rw t (record { mirrored = h.state; leased = (refl, refl) })
              | inr f ↦ rw f (ka.0.other (ground (arith, ka.0.free, ka.1)))
            ])
            db.outbox (All-zip (λ r k a. (k, a)) db.outbox known same);
      outbox_ids =
          All-update_where (λ r. r.id ≤ db.outbox_seq) (λ r. r.id ≤ db.outbox_seq)
            (λ r. r.id == row.id) (reset_row cfg id snapshot target payload_json now)
            (λ r le. ground (arith, le)) db.outbox h.outbox_ids;
      product_ids = h.product_ids;
    }

  -- The upsert leaves a valid store, in which the product is still pending.
  pub upsert_outbox_row-IsValid :
      (db : Db)
      → IsPrepared id db
      → Ensures
          (λ r. IsValid r.1 × (state_of id r.1.products ≡ some pending))
          (upsert_outbox_row cfg id snapshot event_id target payload_json now db)
  unfolding upsert_outbox_row
  upsert_outbox_row-IsValid db h =
      elim (Bool-cases (exists (product_taken id event_id) db.outbox)) [
        | inl t ↦ rw (t, upsert_outbox_row) tt
        | inr f ↦
            let known : All (Known db.products) db.outbox =
              All-zip (λ r o x. record { other = o; free = x }) db.outbox h.others
                (exists-false (product_taken id event_id) db.outbox f) in
            elim (Option-cases (find (λ r. r.event_id =s= event_id) db.outbox)) [
              | inl e ↦
                  rw (f, e, upsert_outbox_row)
                    (enqueued-IsValid db h known (find-none _ db.outbox e), h.state)
              | inr (row, e) ↦
                  rw (f, e, upsert_outbox_row)
                    (
                      reset-IsValid db h known row (find-SameEvent event_id db.outbox h.distinct e),
                      h.state,
                    )
            ]
      ]

-- The last statement of the transaction writes the state that the product has already.
pub set_pending-IsValid :
    (id : ℕ) (now : Time) (db : Db)
    → IsValid db
    → state_of id db.products ≡ some pending
    → IsValid (set_pending id now db)
unfolding set_pending
set_pending-IsValid id now db v h =
    let moved =
      state_of-update (λ i. i == id)
        (λ q. record q { publication_state = pending; updated_at = now }) pending (λ q. refl)
        (λ q. refl) in
    record {
      distinct = v.distinct;
      fits =
          All-map_mono (FitsProducts db.products) _
            (λ r f. record {
              mirrored = moved r.raw_product_id db.products ∙ ground (arith, f.mirrored, h);
              leased = f.leased;
            })
            db.outbox v.fits;
      outbox_ids = v.outbox_ids;
      product_ids =
          All-update_where (λ q. q.id ≤ db.product_seq) (λ q. q.id ≤ db.product_seq)
            (λ q. q.id == id) (λ q. record q { publication_state = pending; updated_at = now })
            (λ q le. ground (arith, le)) db.products v.product_ids;
    }
