-- ===== src/Store/Postgres.antt =====
-- The outbox of infrastructure/persistence/postgres_store.py: which rows are ready, and a claim.
-- Its columns hold times, so they are compared as such. `for update skip locked` passes over the
-- rows that another transaction holds: `locked` says which.
use doxx.Base.{
  ℕ, ◌+◌, ◌*◌, max, String, Bool, true, false, not, ◌&&◌, ◌||◌, Option, none, some, List, [], map,
  mem_nat, is_empty, take, filter, leb, if◌then◌else◌,
}
use doxx.Table.{update_where, exists}
use doxx.Store.Rows.{Time, Status, leased, OutboxRow, Db}
use doxx.Store.Env.{Externals}
use doxx.Store.Iso.{second}
use doxx.Store.Outbox.{ClaimedOutboxMessage, is_open, set_state, decode_rows}
use doxx.Store.Outbox.Sorting.{order_by}

abbrev pub is_leased : Status → Bool
is_leased leased = true
is_leased _ = false

-- `lease_expires_at is not null and lease_expires_at <= now`
abbrev pub lease_over : Time → Option Time → Bool
lease_over now none = false
lease_over now (some t) = leb t now

-- The `where` clause of both selects.
unfoldable pub ready : Time → OutboxRow → Bool
ready now r =
    (is_open r.status && leb r.available_at now)
    || (is_leased r.status && lease_over now r.lease_expires_at)

unfoldable pub has_ready_rows : Time → Db → Bool
has_ready_rows now db = exists (ready now) db.outbox

unfoldable pub selected_ids : (ℕ → Bool) → ℕ → Time → Db → List ℕ
selected_ids locked batch_size now db =
    map (λ r. r.id)
      (take batch_size
        (order_by (λ r. r.created_at) (filter (λ r. ready now r && not (locked r.id)) db.outbox)))

unfoldable pub take_lease : String → Time → Time → OutboxRow → OutboxRow
take_lease publisher_id lease_expires now r = record r {
  status = leased;
  lease_owner = some publisher_id;
  lease_expires_at = some lease_expires;
  updated_at = now;
}

unfoldable pub take_leases : List ℕ → String → Time → Time → Db → Db
take_leases ids publisher_id lease_expires now db =
    let claimed = filter (λ r. mem_nat r.id ids) db.outbox in
    record db {
      outbox =
          update_where (λ r. mem_nat r.id ids) (take_lease publisher_id lease_expires now)
            db.outbox;
      products =
          update_where (λ q. mem_nat q.id (map (λ r. r.raw_product_id) claimed))
            (set_state leased now) db.products;
    }

unfoldable pub claim_batch :
    Externals → (ℕ → Bool) → ℕ → String → ℕ → Time → Db → Option (List ClaimedOutboxMessage) × Db
claim_batch ext locked batch_size publisher_id lease_seconds now db =
    let ids = selected_ids locked batch_size now db in
    let db' = take_leases ids publisher_id (now + max lease_seconds 1 * second) now db in
    if is_empty ids then (some [], db) else (
      decode_rows ext (order_by (λ r. r.created_at) (filter (λ r. mem_nat r.id ids) db'.outbox)),
      db',
    )
