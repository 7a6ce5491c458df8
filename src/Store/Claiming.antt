-- ===== src/Store/Claiming.antt =====
-- What a claim of the SQLite store takes: `ready_ids` and `claim_outbox_batch` of sqlite_store.py.
use doxx.Base.{
  ℕ, suc, ◌+◌, ◌*◌, ◌/◌, max, ◌≤◌, ◌<◌, ◌≡◌, refl, true, false, not, List, [], ◌∷◌, arith, String,
  Bool-cases, inl, inr, All, All-filter, All-map, All-map_mono, All-take, take, drop, length,
  length-take, filter, is_empty, mem_nat, map,
}
use mathlib.Core.List.{Perm}
use doxx.Table.{update_where, exists}
use doxx.Store.Rows.{Time, OutboxRow, Db}
use doxx.Store.Env.{Externals}
use doxx.Store.Iso.{iso_rank, second}
use doxx.Store.Outbox.{
  claimable, ready_ids, lease_row, lease_ids, claim_outbox_batch, has_claimable_outbox_rows,
}
use doxx.Store.Outbox.Sorting.{order_by, insert_by}
use doxx.Store.Outbox.Sorting.Laws.{
  All-order_by, order_by-sorted, order_by-perm, LeKey, take-le-drop,
}

abbrev pub created : OutboxRow → ℕ
created r = iso_rank r.created_at

-- Created before the other, or less than a second after it.
abbrev pub CreatedBefore : OutboxRow → OutboxRow → Type 0
CreatedBefore r s = r.created_at < s.created_at + second

-- The rows that are ready at a time, in the order of the texts of `created_at`.
abbrev pub ready_rows : Time → Db → List OutboxRow
ready_rows now db = order_by created (filter (claimable now) db.outbox)

length-map {ℓ κ} :
    {A : Type ℓ} {B : Type κ} (f : A → B) (xs : List A) → length (map f xs) ≡ length xs
length-map f [] = refl
length-map f (x ∷ xs) = ground (arith, length-map f xs)

-- The text of a time stands behind that of another only if the time is less than a second earlier.
created_within_second : (r s : OutboxRow) → LeKey created r s → r.created_at < s.created_at + second
unfolding iso_rank
created_within_second r s le =
    let low = rank_bounds r.created_at in
    let high = rank_bounds s.created_at in omega (arith, le, low, high)
  where
    rank_bounds :
        (t : Time)
        → (t / second * 1000001 + 1 ≤ iso_rank t) × (iso_rank t ≤ t / second * 1000001 + second)
    rank_bounds t = ground arith

-- A batch has at most `batch_size` rows. They come first among the ready rows, which are all the
-- rows that pass the test, in the order of the texts of their `created_at`; so no row of the batch
-- was created a second or more after a ready row that is left behind.
pub ready_ids-oldest :
    (batch_size : ℕ) (now : Time) (db : Db)
    → (length (ready_ids batch_size now db) ≤ batch_size)
      × (ready_ids batch_size now db ≡ map (λ r. r.id) (take batch_size (ready_rows now db)))
      × Perm (ready_rows now db) (filter (claimable now) db.outbox)
      × All
          (λ r. All (LeKey created r) (drop batch_size (ready_rows now db)))
          (take batch_size (ready_rows now db))
      × All
          (λ r. All (CreatedBefore r) (drop batch_size (ready_rows now db)))
          (take batch_size (ready_rows now db))
unfolding ready_ids
ready_ids-oldest batch_size now db =
    let rows = ready_rows now db in
    let sorted = take-le-drop created batch_size rows (order_by-sorted created _) in
    (
      omega (
        arith,
        length-map (λ (r : OutboxRow). r.id) (take batch_size rows),
        length-take batch_size rows,
      ),
      refl,
      order_by-perm created (filter (claimable now) db.outbox),
      sorted,
      All-map_mono (λ r. All (LeKey created r) (drop batch_size rows))
          (λ r. All (CreatedBefore r) (drop batch_size rows))
          (λ r le.
            All-map_mono (LeKey created r) (CreatedBefore r) (created_within_second r)
              (drop batch_size rows) le)
          (take batch_size rows) sorted,
    )

-- After a claim no row with a claimed id is ready, at any time.
leased-not-ready :
    (ids : List ℕ) (owner : String) (expires now later : Time) (rs : List OutboxRow)
    → All
        (λ r. claimable later r ≡ true → mem_nat r.id ids ≡ false)
        (update_where (λ r. mem_nat r.id ids) (lease_row owner expires now) rs)
unfolding lease_row claimable
leased-not-ready ids owner expires now later [] = tt
leased-not-ready ids owner expires now later (r ∷ rs) =
    (ground arith, leased-not-ready ids owner expires now later rs)

ready_ids-avoid :
    (ids : List ℕ) (batch_size : ℕ) (now : Time) (db : Db)
    → All (λ r. claimable now r ≡ true → mem_nat r.id ids ≡ false) db.outbox
    → All (λ i. mem_nat i ids ≡ false) (ready_ids batch_size now db)
unfolding ready_ids
ready_ids-avoid ids batch_size now db h =
    All-map (λ i. mem_nat i ids ≡ false) (λ r. r.id) _
      (All-take (λ r. mem_nat r.id ids ≡ false) batch_size _
        (All-order_by (λ r. mem_nat r.id ids ≡ false) created _
          (All-filter _ (λ r. mem_nat r.id ids ≡ false) (claimable now) (λ r k e. k e) db.outbox
            h)))

-- Two claims with no other transaction between them take no row in common, whoever makes them and
-- however late the second is.
pub claims_exclusive :
    (ext : Externals) (n m : ℕ) (owner : String) (lease_seconds : ℕ) (now later : Time) (db : Db)
    → All
        (λ i. mem_nat i (ready_ids n now db) ≡ false)
        (ready_ids m later (claim_outbox_batch ext n owner lease_seconds now db).1)
unfolding claim_outbox_batch lease_ids
claims_exclusive ext n m owner lease_seconds now later db =
    elim (Bool-cases (is_empty (ready_ids n now db))) [
      | inl t ↦
          rw (t, claim_outbox_batch) (none_taken (ready_ids n now db) t (ready_ids m later db))
      | inr f ↦
          rw (f, claim_outbox_batch)
            (ready_ids-avoid (ready_ids n now db) m later
              (lease_ids (ready_ids n now db) owner (now + max lease_seconds 1 * second) now db)
              (leased-not-ready (ready_ids n now db) owner _ now later db.outbox))
    ]
  where
    none_taken :
        (ids : List ℕ) → is_empty ids ≡ true → (js : List ℕ) → All (λ i. mem_nat i ids ≡ false) js
    none_taken [] e [] = tt
    none_taken [] e (j ∷ js) = (refl, none_taken [] e js)
    none_taken (x ∷ ids) e js = cc

is_empty-insert : (r : OutboxRow) (rs : List OutboxRow) → is_empty (insert_by created r rs) ≡ false
unfolding insert_by
is_empty-insert r [] = refl
is_empty-insert r (x ∷ rs) = ground arith

ready_rows-empty :
    (now : Time) (rs : List OutboxRow)
    → is_empty (order_by created (filter (claimable now) rs)) ≡ not (exists (claimable now) rs)
unfolding order_by
ready_rows-empty now [] = refl
ready_rows-empty now (r ∷ rs) = elim (Bool-cases (claimable now r)) [
  | inl t ↦ rw t (is_empty-insert r (order_by created (filter (claimable now) rs)))
  | inr f ↦ rw f (ready_rows-empty now rs)
]

-- The check that the publisher makes before it connects is exact: it says that rows are ready
-- exactly when a claim of one row or more would take some.
pub has_claimable-eq-ready :
    (n : ℕ) (now : Time) (db : Db)
    → has_claimable_outbox_rows now db ≡ not (is_empty (ready_ids (suc n) now db))
unfolding has_claimable_outbox_rows ready_ids
has_claimable-eq-ready n now db =
    ground (arith, ready_rows-empty now db.outbox, some_taken (ready_rows now db))
  where
    some_taken :
        (rs : List OutboxRow)
        → is_empty (map (λ (r : OutboxRow). r.id) (take (suc n) rs)) ≡ is_empty rs
    some_taken [] = refl
    some_taken (r ∷ rs) = refl
