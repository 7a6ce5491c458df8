-- ===== src/Store/Persist.antt =====
-- `persist_snapshot` of infrastructure/persistence/sqlite_store.py: one transaction that writes a
-- scraped product, its images, its specifications and its outbox row. `none` says that a statement
-- raised, and then the transaction is rolled back and the database is as before.
use doxx.Base.{ℕ, String, Option, none, some, ◌==◌}
use doxx.Table.{update_where}
use doxx.Store.Rows.{Time, Status, pending, ScrapedProductSnapshot, Db}
use doxx.Store.Env.{Settings, Externals}
use doxx.Store.Event.{Target, event_id_of, build_scraper_product_event}
use doxx.Store.Product.{upsert_raw_product}
use doxx.Store.Details.{replace_image_rows, replace_spec_rows}
use doxx.Store.Enqueue.{upsert_outbox_row}

-- `none` is `sqlite3.IntegrityError`.
infixl 5 ◌>>=◌
abbrev pub ◌>>=◌ {ℓ κ} : {A : Type ℓ} {B : Type κ} → Option A → (A → Option B) → Option B
none >>= f = none
some a >>= f = f a

pub record PersistedRawProduct : Type 0 where
  pub raw_product_id : ℕ
  pub outbox_id : ℕ
  pub event_id : String
  pub payload_hash : String
  pub publication_state : Status

-- The last statement of the transaction.
unfoldable pub set_pending : ℕ → Time → Db → Db
set_pending id now db = record db {
  products =
      update_where (λ q. q.id == id)
        (λ q. record q { publication_state = pending; updated_at = now }) db.products;
}

unfoldable pub persist_snapshot :
    Settings
    → Externals
    → ScrapedProductSnapshot
    → Target
    → Time
    → Db
    → Option (PersistedRawProduct × Db)
persist_snapshot cfg ext snapshot target now db = do
  let event_id = event_id_of ext snapshot
  let event = build_scraper_product_event cfg snapshot event_id target now
  (id, db1) ← upsert_raw_product snapshot (ext.dumps_payload event.structured_payload) now db
  db2 ← replace_image_rows id snapshot.image_urls now db1
  db3 ← replace_spec_rows ext id snapshot.raw_specs now db2
  (outbox_id, db4) ←
      upsert_outbox_row cfg id snapshot event_id target (ext.dumps_event event) now db3
  some (
    record {
      raw_product_id = id;
      outbox_id = outbox_id;
      event_id = event_id;
      payload_hash = snapshot.payload_hash;
      publication_state = pending;
    },
    set_pending id now db4,
  )
