-- ===== src/Store/Outbox.antt =====
-- The publication outbox of infrastructure/persistence/sqlite_store.py: which rows are ready,
-- and claiming a batch in one transaction.
pub mod Sorting
use Sorting.{order_by}
use doxx.Base.{
  ℕ, ◌+◌, ◌-◌, ◌*◌, ◌^◌, max, String, Bool, true, false, ◌&&◌, Option, none, some, List, [], ◌∷◌,
  ◌++◌, map, mem_nat, is_empty, take, filter, ltb, ◌==◌, ◌=s=◌, if◌then◌else◌,
}
use doxx.Table.{update_where, find, exists}
use doxx.Store.Rows.{
  Time, Status, pending, publishing, leased, published, retryable, failed, OutboxRow, RawProduct,
  Attempt, Db, ScraperProductEvent,
}
use doxx.Store.Env.{Settings, Externals}
use doxx.Store.Iso.{iso_rank, iso_le, second}

pub record ClaimedOutboxMessage : Type 0 where
  pub event_id : String
  pub exchange_name : String
  pub routing_key : String
  pub attempt_count : ℕ
  pub payload : ScraperProductEvent

-- `status in ('pending', 'retryable')`
abbrev pub is_open : Status → Bool
is_open pending = true
is_open publishing = false
is_open leased = false
is_open published = false
is_open retryable = true
is_open failed = false

-- `lease_expires_at is null or lease_expires_at <= now`
unfoldable pub lease_free : Time → Option Time → Bool
lease_free now none = true
lease_free now (some t) = iso_le t now

-- The `where` clause of both selects.
unfoldable pub claimable : Time → OutboxRow → Bool
claimable now r =
    is_open r.status && (iso_le r.available_at now && lease_free now r.lease_expires_at)

unfoldable pub has_claimable_outbox_rows : Time → Db → Bool
has_claimable_outbox_rows now db = exists (claimable now) db.outbox

-- The ids of the first select, in the order of the texts of `created_at`.
unfoldable pub ready_ids : ℕ → Time → Db → List ℕ
ready_ids batch_size now db =
    map (λ r. r.id)
      (take batch_size (order_by (λ r. iso_rank r.created_at) (filter (claimable now) db.outbox)))

unfoldable pub lease_row : String → Time → Time → OutboxRow → OutboxRow
lease_row publisher_id lease_expires now r = record r {
  status = publishing;
  lease_owner = some publisher_id;
  lease_expires_at = some lease_expires;
  updated_at = now;
}

unfoldable pub set_state : Status → Time → RawProduct → RawProduct
set_state st now q = record q { publication_state = st; updated_at = now }

-- `select raw_product_id from publication_outbox where id in (…)`
abbrev pub raw_ids : List ℕ → List OutboxRow → List ℕ
raw_ids ids [] = []
raw_ids ids (r ∷ rs) =
    let rest = raw_ids ids rs in if mem_nat r.id ids then r.raw_product_id ∷ rest else rest

-- The two updates of a claim.
unfoldable pub lease_ids : List ℕ → String → Time → Time → Db → Db
lease_ids ids publisher_id lease_expires now db =
    let rows =
      update_where (λ r. mem_nat r.id ids) (lease_row publisher_id lease_expires now) db.outbox in
    record db {
      outbox = rows;
      products =
          update_where (λ q. mem_nat q.id (raw_ids ids rows)) (set_state publishing now)
            db.products;
    }

-- The messages built from the claimed rows; `none` where a payload does not validate.
unfoldable pub decode_rows : Externals → List OutboxRow → Option (List ClaimedOutboxMessage)
decode_rows ext [] = some []
decode_rows ext (r ∷ rs) =
    let rest = decode_rows ext rs in
    elim (ext.loads_event r.payload_json) [
      | none ↦ none
      | some e ↦ elim rest [
        | none ↦ none
        | some ms ↦ some (
            record {
              event_id = r.event_id;
              exchange_name = r.exchange_name;
              routing_key = r.routing_key;
              attempt_count = r.retry_count;
              payload = e;
            }
            ∷ ms)
      ]
    ]

-- The transaction is committed before the payloads are validated.
unfoldable pub claim_outbox_batch :
    Externals → ℕ → String → ℕ → Time → Db → Option (List ClaimedOutboxMessage) × Db
claim_outbox_batch ext batch_size publisher_id lease_seconds now db =
    let ids = ready_ids batch_size now db in
    if is_empty ids
    then (some [], db)
    else (let db' = lease_ids ids publisher_id (now + max lease_seconds 1 * second) now db in
        (
          decode_rows ext
              (order_by (λ r. iso_rank r.created_at) (filter (λ r. mem_nat r.id ids) db'.outbox)),
          db',
        ))
