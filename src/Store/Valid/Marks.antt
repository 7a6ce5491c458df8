-- ===== src/Store/Valid/Marks.antt =====
-- Marking a row published or failed keeps the invariant: its product shows the new state, and the
-- lease is given up.
use doxx.Base.{
  ℕ, ◌≤◌, ◌≡◌, refl, Bool, true, false, Option, some, List, [], ◌∷◌, arith, ◌==◌, ◌=s=◌, String,
  if◌then◌else◌, Bool-cases, Option-cases, inl, inr, All, Pairwise, All-map_mono, All-zip, ◌∙◌,
}
use doxx.Table.{update_where, find, All-update_where, All-find, Pairwise-update_where}
use doxx.Store.Rows.{
  Time, Status, published, RawProduct, OutboxRow, Attempt, Db, ScraperProductEvent,
}
use doxx.Store.Env.{Externals, Settings}
use doxx.Store.Outbox.{set_state}
use doxx.Store.Settle.{
  settle, mark_outbox_published, mark_outbox_failed, published_row, failed_row, next_status,
}
use doxx.Store.Valid.{AreDistinct, FitsProducts, LeaseFits, IsValid}
use doxx.Store.States.{state_of-update}

-- Among the rows, to have the id of `row` is to have its product.
abbrev SameRow : OutboxRow → OutboxRow → Type 0
SameRow row r = (r.id == row.id) ≡ (r.raw_product_id == row.raw_product_id)

find-SameRow :
    (p : OutboxRow → Bool) (rs : List OutboxRow) {row : OutboxRow}
    → Pairwise AreDistinct rs
    → find p rs ≡ some row
    → All (SameRow row) rs
find-SameRow p [] h e = tt
find-SameRow p (x ∷ rs) {row} h e = elim (Bool-cases (p x)) [
  | inl t ↦
      let found : some x ≡ some row = rw t at e in
      let same : x ≡ row = cc found in
      (
        ground (arith, same),
        All-map_mono (AreDistinct x) (SameRow row) (λ r d. ground (arith, d.ids, d.products, same))
            rs h.0,
      )
  | inr f ↦
      let later : find p rs ≡ some row = rw f at e in
      let d = All-find (AreDistinct x) p rs h.0 later in
      (ground (arith, d.ids, d.products), find-SameRow p rs h.1 later)
]

-- What both marks have in common. `change` keeps what identifies a row, and sets `st` and a lease
-- that fits it.
record Settles (change : OutboxRow → OutboxRow) (st : Status) (r : OutboxRow) : Type 0 where
  id : (change r).id ≡ r.id
  product : (change r).raw_product_id ≡ r.raw_product_id
  event : (change r).event_id ≡ r.event_id
  status : (change r).status ≡ st
  lease : LeaseFits (change r).status (change r).lease_owner (change r).lease_expires_at

module _ (row : OutboxRow) (change : OutboxRow → OutboxRow) (st : Status) (now : Time)
    (ok : (r : OutboxRow) → Settles change st r) where
  settle-keeps-AreDistinct :
      (r s : OutboxRow)
      → AreDistinct r s
      → AreDistinct
          (if r.id == row.id then change r else r)
          (if s.id == row.id then change s else s)
  settle-keeps-AreDistinct r s d = ground (arith, ok r, ok s)

  settle-fits :
      (qs : List RawProduct) (r : OutboxRow)
      → FitsProducts qs r × SameRow row r
      → FitsProducts
          (update_where (λ q. q.id == row.raw_product_id) (set_state st now) qs)
          (if r.id == row.id then change r else r)
  settle-fits qs r (h, a) =
      let moved =
        state_of-update (λ i. i == row.raw_product_id) (set_state st now) st
          (λ q. unfold set_state in refl) (λ q. unfold set_state in refl) r.raw_product_id qs in
      elim (Bool-cases (r.id == row.id)) [
        | inl t ↦ rw t (record {
          mirrored = rw (ok r).product (moved ∙ ground (arith, h.mirrored, a, ok r));
          leased = (ok r).lease;
        })
        | inr f ↦
            rw f (record { mirrored = moved ∙ ground (arith, h.mirrored, a); leased = h.leased })
      ]

  settle-IsValid :
      (a : Attempt) (db : Db)
      → All (SameRow row) db.outbox
      → IsValid db
      → IsValid (settle row change st now a db)
  unfolding settle
  settle-IsValid a db same v = record {
    distinct =
        Pairwise-update_where AreDistinct (λ r. r.id == row.id) change settle-keeps-AreDistinct
          db.outbox v.distinct;
    fits =
        All-update_where (FitsProducts _) (λ r. FitsProducts db.products r × SameRow row r)
          (λ r. r.id == row.id) change (settle-fits db.products) db.outbox
          (All-zip (λ r h s. (h, s)) db.outbox v.fits same);
    outbox_ids =
        All-update_where (λ r. r.id ≤ db.outbox_seq) (λ r. r.id ≤ db.outbox_seq)
          (λ r. r.id == row.id) change (λ r h. ground (arith, h, ok r)) db.outbox v.outbox_ids;
    product_ids =
        All-update_where (λ q. q.id ≤ db.product_seq) (λ q. q.id ≤ db.product_seq)
          (λ q. q.id == row.raw_product_id) (set_state st now)
          (λ q h. unfold set_state in ground (arith, h)) db.products v.product_ids;
  }

published-Settles :
    (n : ℕ) (payload : Option String) (now : Time) (r : OutboxRow)
    → Settles (published_row n payload now) published r
unfolding published_row
published-Settles n payload now r = record {
  id = refl;
  product = refl;
  event = refl;
  status = refl;
  lease = (refl, refl);
}

failed-Settles :
    (again : Bool) (n : ℕ) (at_time : Time) (message : String) (now : Time) (r : OutboxRow)
    → Settles (failed_row again n at_time message now) (next_status again) r
unfolding failed_row
failed-Settles true n at_time message now r = record {
  id = refl;
  product = refl;
  event = refl;
  status = refl;
  lease = (refl, refl);
}
failed-Settles false n at_time message now r = record {
  id = refl;
  product = refl;
  event = refl;
  status = refl;
  lease = (refl, refl);
}

-- Marking a row published keeps the invariant.
pub mark_outbox_published-IsValid :
    (ext : Externals) (event_id publisher_id : String) (event : Option ScraperProductEvent)
    (now : Time) (db : Db)
    → IsValid db
    → IsValid (mark_outbox_published ext event_id publisher_id event now db)
unfolding mark_outbox_published
mark_outbox_published-IsValid ext event_id publisher_id event now db v =
    elim (Option-cases (find (λ r. r.event_id =s= event_id) db.outbox)) [
      | inl e ↦ rw (e, mark_outbox_published) v
      | inr (row, e) ↦
          rw (e, mark_outbox_published)
            (settle-IsValid row _ published _ (published-Settles _ _ _) _ db
              (find-SameRow _ db.outbox v.distinct e) v)
    ]

-- Marking a row failed, retryable or for good, keeps the invariant.
pub mark_outbox_failed-IsValid :
    (cfg : Settings) (event_id publisher_id message : String) (retry : Bool)
    (max_retries retry_base : Option ℕ) (now : Time) (db : Db)
    → IsValid db
    → IsValid
        (mark_outbox_failed cfg event_id publisher_id message retry max_retries retry_base now db)
unfolding mark_outbox_failed
mark_outbox_failed-IsValid cfg event_id publisher_id message retry max_retries retry_base now db v =
    elim (Option-cases (find (λ r. r.event_id =s= event_id) db.outbox)) [
      | inl e ↦ rw (e, mark_outbox_failed) v
      | inr (row, e) ↦
          rw (e, mark_outbox_failed)
            (settle-IsValid row _ _ _ (failed-Settles _ _ _ _ _) _ db
              (find-SameRow _ db.outbox v.distinct e) v)
    ]
