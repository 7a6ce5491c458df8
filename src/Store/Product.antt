-- ===== src/Store/Product.antt =====
-- `_upsert_raw_product` of infrastructure/persistence/sqlite_store.py. A statement that breaks a
-- constraint of the schema raises.
use doxx.Base.{
  ℕ, suc, String, Bool, ◌&&◌, Option, none, some, [], ◌∷◌, ◌++◌, ◌==◌, ◌=s=◌, if◌then◌else◌,
}
use doxx.Table.{update_where, find, exists}
use doxx.Store.Rows.{Time, pending, ScrapedProductSnapshot, RawProduct, Db}

-- `where scrape_run_id = ? and identity_key = ?`
unfoldable pub same_product : ScrapedProductSnapshot → RawProduct → Bool
same_product snapshot q =
    (q.columns.scrape_run_id =s= snapshot.scrape_run_id)
    && (q.columns.identity_key =s= snapshot.identity_key)

abbrev pub run_exists : String → Db → Bool
run_exists run_id db = exists (λ r. r.run_id =s= run_id) db.runs

-- The update of an existing row. It writes every column of the snapshot but the two of its key,
-- which are equal already.
unfoldable pub refresh_product : ScrapedProductSnapshot → String → Time → RawProduct → RawProduct
refresh_product snapshot structured now q = record q {
  columns = snapshot;
  structured_payload_json = structured;
  publication_state = pending;
  updated_at = now;
}

unfoldable pub upsert_raw_product : ScrapedProductSnapshot → String → Time → Db → Option (ℕ × Db)
upsert_raw_product snapshot structured now db = elim (find (same_product snapshot) db.products) [
  | none ↦
      if run_exists snapshot.scrape_run_id db
      then (let id = suc db.product_seq in
          some (
            id,
            record db {
              products =
                  db.products
                  ++ (record {
                    id = id;
                    columns = snapshot;
                    structured_payload_json = structured;
                    publication_state = pending;
                    created_at = now;
                    updated_at = now;
                  }
                      ∷ []);
              product_seq = id;
            },
          ))
      else none
  | some q ↦ some (
    q.id,
    record db {
      products =
          update_where (λ p. p.id == q.id) (refresh_product snapshot structured now) db.products;
    },
  )
]
