-- ===== src/Store/Stranded.antt =====
-- A row whose publisher never comes back, in the SQLite store: the status `publishing` is not among
-- those that `claim_outbox_batch` selects, so the end of the lease does not free the row.
use doxx.Base.{
  ℕ, ◌+◌, ◌*◌, max, ◌≡◌, refl, ◌≢◌, Bool, false, List, [], ◌∷◌, some, arith, String, Bool-cases,
  inl, inr, All, All-map_mono, All-filter, All-map, All-take, Pairwise, is_empty, mem_nat, ◌=s=◌,
  ◌∙◌,
}
use doxx.Table.{find, find-update_where, All-find}
use doxx.Store.Rows.{Time, publishing, OutboxRow, Db}
use doxx.Store.Env.{Externals}
use doxx.Store.Iso.{second}
use doxx.Store.Outbox.{claimable, ready_ids, lease_row, lease_ids, claim_outbox_batch}
use doxx.Store.Outbox.Sorting.Laws.{All-order_by}
use doxx.Store.Valid.{AreDistinct, IsValid}
use doxx.Store.Valid.Claims.{claim_outbox_batch-IsValid}
use doxx.Store.Claiming.{created}
use doxx.Store.Marking.{row_of}

-- A row with the id of `row` has its status.
abbrev SameStatus : OutboxRow → OutboxRow → Type 0
SameStatus row r = r.id ≡ row.id → r.status ≡ row.status

find-SameStatus :
    (p : OutboxRow → Bool) (rs : List OutboxRow) {row : OutboxRow}
    → Pairwise AreDistinct rs
    → find p rs ≡ some row
    → All (SameStatus row) rs
find-SameStatus p [] h e = tt
find-SameStatus p (x ∷ rs) {row} h e = elim (Bool-cases (p x)) [
  | inl t ↦
      let found : some x ≡ some row = rw t at e in
      let same : x ≡ row = cc found in
      (
        ground (arith, same),
        All-map_mono (AreDistinct x) (SameStatus row) (λ r d. ground (arith, d.ids, same)) rs h.0,
      )
  | inr f ↦
      let later : find p rs ≡ some row = rw f at e in
      let d = All-find (AreDistinct x) p rs h.0 later in
      (ground (arith, d.ids), find-SameStatus p rs h.1 later)
]

mem-ne : (i : ℕ) (js : List ℕ) → All (λ j. j ≢ i) js → mem_nat i js ≡ false
mem-ne i [] h = refl
mem-ne i (j ∷ js) h = ground (arith, mem-ne i js h.1)

ready_ids-skip :
    (n : ℕ) (now : Time) (i : ℕ) (db : Db)
    → All (λ r. r.id ≡ i → r.status ≡ publishing) db.outbox
    → mem_nat i (ready_ids n now db) ≡ false
unfolding ready_ids claimable
ready_ids-skip n now i db h = mem-ne i _ (
    All-map (λ j. j ≢ i) (λ r. r.id) _
      (All-take (λ r. r.id ≢ i) n _
        (All-order_by (λ r. r.id ≢ i) created _
          (All-filter (λ r. r.id ≡ i → r.status ≡ publishing) (λ r. r.id ≢ i) (claimable now)
            (λ r k e. ground (arith, k, e)) db.outbox h))))

claim_one :
    (ext : Externals) (n : ℕ) (owner : String) (lease_seconds : ℕ) (now : Time) (event_id : String)
    (db : Db) {row : OutboxRow}
    → IsValid db
    → row_of event_id db ≡ some row
    → row.status ≡ publishing
    → row_of event_id (claim_outbox_batch ext n owner lease_seconds now db).1 ≡ some row
unfolding claim_outbox_batch lease_ids
claim_one ext n owner lease_seconds now event_id db {row} v found held =
    let skip = ready_ids-skip n now row.id db (
      All-map_mono (SameStatus row) (λ r. r.id ≡ row.id → r.status ≡ publishing)
        (λ r k e. k e ∙ held) db.outbox
        (find-SameStatus (λ r. r.event_id =s= event_id) db.outbox v.distinct found)) in
    elim (Bool-cases (is_empty (ready_ids n now db))) [
      | inl t ↦ rw (t, claim_outbox_batch) found
      | inr f ↦
          rw (f, claim_outbox_batch)
            (find-update_where (λ r. r.event_id =s= event_id)
                (λ r. mem_nat r.id (ready_ids n now db))
                (lease_row owner (now + max lease_seconds 1 * second) now)
                (λ r. unfold lease_row in refl) db.outbox
              ∙ ground (arith, found, skip))
    ]

-- One claim: batch size, publisher, lease in seconds, time.
pub record Claim : Type 0 where
  pub batch_size : ℕ
  pub publisher_id : String
  pub lease_seconds : ℕ
  pub now : Time

abbrev pub claim_all : Externals → List Claim → Db → Db
claim_all ext [] db = db
claim_all ext (c ∷ cs) db =
    claim_all ext cs (claim_outbox_batch ext c.batch_size c.publisher_id c.lease_seconds c.now db).1

-- A row that is being published stays as it is under any claims, by any publishers at any times,
-- also after its lease has run out.
pub publishing_stranded :
    (ext : Externals) (cs : List Claim) (event_id : String) (db : Db) {row : OutboxRow}
    → IsValid db
    → row_of event_id db ≡ some row
    → row.status ≡ publishing
    → row_of event_id (claim_all ext cs db) ≡ some row
publishing_stranded ext [] event_id db v found held = found
publishing_stranded ext (c ∷ cs) event_id db v found held =
    publishing_stranded ext cs event_id
      (claim_outbox_batch ext c.batch_size c.publisher_id c.lease_seconds c.now db).1
      (claim_outbox_batch-IsValid ext c.batch_size c.publisher_id c.lease_seconds c.now db v)
      (claim_one ext c.batch_size c.publisher_id c.lease_seconds c.now event_id db v found held)
      held
