-- ===== src/Store/Enqueue.antt =====
-- `_upsert_outbox_row` of infrastructure/persistence/sqlite_store.py: the row of an event is
-- inserted, or reset to a fresh pending row that keeps its id and its `created_at`.
use doxx.Base.{
  ℕ, suc, String, Bool, ◌&&◌, not, Option, none, some, [], ◌∷◌, ◌++◌, ◌==◌, ◌=s=◌, if◌then◌else◌,
}
use doxx.Table.{update_where, find, exists}
use doxx.Store.Rows.{Time, pending, ScrapedProductSnapshot, OutboxRow, Db}
use doxx.Store.Env.{Settings}
use doxx.Store.Event.{Target}

unfoldable pub fresh_row :
    Settings → ℕ → ℕ → ScrapedProductSnapshot → String → Target → String → Time → OutboxRow
fresh_row cfg id raw_product_id snapshot event_id target payload_json now = record {
  id = id;
  raw_product_id = raw_product_id;
  event_id = event_id;
  event_type = target.event_type;
  schema_version = cfg.message_schema_version;
  scrape_run_id = snapshot.scrape_run_id;
  store_name = snapshot.store_name;
  source_id = snapshot.source_id;
  source_url = snapshot.source_url;
  payload_hash = snapshot.payload_hash;
  exchange_name = target.exchange_name;
  routing_key = target.routing_key;
  payload_json = payload_json;
  status = pending;
  available_at = now;
  published_at = none;
  retry_count = 0;
  last_error = none;
  lease_owner = none;
  lease_expires_at = none;
  created_at = now;
  updated_at = now;
}

-- The update sets every column but `id`, `event_id` and `created_at`.
unfoldable pub reset_row :
    Settings → ℕ → ScrapedProductSnapshot → Target → String → Time → OutboxRow → OutboxRow
reset_row cfg raw_product_id snapshot target payload_json now r = record r {
  raw_product_id = raw_product_id;
  event_type = target.event_type;
  schema_version = cfg.message_schema_version;
  scrape_run_id = snapshot.scrape_run_id;
  store_name = snapshot.store_name;
  source_id = snapshot.source_id;
  source_url = snapshot.source_url;
  payload_hash = snapshot.payload_hash;
  exchange_name = target.exchange_name;
  routing_key = target.routing_key;
  payload_json = payload_json;
  status = pending;
  available_at = now;
  published_at = none;
  retry_count = 0;
  last_error = none;
  lease_owner = none;
  lease_expires_at = none;
  updated_at = now;
}

-- `raw_product_id integer not null unique`: another row of the outbox has the product.
unfoldable pub product_taken : ℕ → String → OutboxRow → Bool
product_taken raw_product_id event_id r =
    r.raw_product_id == raw_product_id && not (r.event_id =s= event_id)

unfoldable pub upsert_outbox_row :
    Settings → ℕ → ScrapedProductSnapshot → String → Target → String → Time → Db → Option (ℕ × Db)
upsert_outbox_row cfg raw_product_id snapshot event_id target payload_json now db =
    if exists (product_taken raw_product_id event_id) db.outbox
    then none
    else elim (find (λ r. r.event_id =s= event_id) db.outbox) [
      | none ↦
          let id = suc db.outbox_seq in
          some (
            id,
            record db {
              outbox =
                  db.outbox
                  ++ (fresh_row cfg id raw_product_id snapshot event_id target payload_json now
                      ∷ []);
              outbox_seq = id;
            },
          )
      | some row ↦ some (
        row.id,
        record db {
          outbox =
              update_where (λ r. r.id == row.id)
                (reset_row cfg raw_product_id snapshot target payload_json now) db.outbox;
        },
      )
    ]
