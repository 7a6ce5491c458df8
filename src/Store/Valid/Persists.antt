-- ===== src/Store/Valid/Persists.antt =====
-- Persisting a snapshot keeps the invariant.
use doxx.Base.{
  ℕ, suc, ◌≤◌, ◌≡◌, refl, ◌≢◌, some, [], ◌∷◌, ◌++◌, arith, ◌==◌, String, Bool-cases, Option-cases,
  inl, inr, All, Pairwise, All-map_mono, All-append, Ensures, ◌∙◌,
}
use doxx.Table.{update_where, find, All-update_where}
use doxx.Store.Rows.{Time, pending, RawProduct, Db, ScrapedProductSnapshot}
use doxx.Store.Product.{same_product, refresh_product, run_exists, upsert_raw_product}
use doxx.Store.Valid.{AreDistinct, state_of, FitsProducts, IsValid}
use doxx.Store.States.{state_of-update, state_of-append, state_of-find, state_of-new}

-- After the product is written: it is pending, and every row of another product still fits.
pub record IsPrepared (id : ℕ) (db : Db) : Type 0 where
  pub state : state_of id db.products ≡ some pending
  pub distinct : Pairwise AreDistinct db.outbox
  pub others : All (λ r. r.raw_product_id ≢ id → FitsProducts db.products r) db.outbox
  pub outbox_ids : All (λ r. r.id ≤ db.outbox_seq) db.outbox
  pub product_ids : All (λ q. q.id ≤ db.product_seq) db.products

module _ (snapshot : ScrapedProductSnapshot) (structured : String) (now : Time) (db : Db)
    (v : IsValid db) where
  abbrev new_product : ℕ → RawProduct
  new_product id = record {
    id = id;
    columns = snapshot;
    structured_payload_json = structured;
    publication_state = pending;
    created_at = now;
    updated_at = now;
  }

  inserted-IsPrepared : IsPrepared (suc db.product_seq) (record db {
    products = db.products ++ (new_product (suc db.product_seq) ∷ []);
    product_seq = suc db.product_seq;
  })
  inserted-IsPrepared = record {
    state = state_of-new db.products (new_product (suc db.product_seq)) (
        All-map_mono (λ q. q.id ≤ db.product_seq) (λ q. q.id ≢ suc db.product_seq)
          (λ q h. omega arith) db.products v.product_ids);
    distinct = v.distinct;
    others =
        All-map_mono (FitsProducts db.products) _
          (λ r h ne. record {
            mirrored =
                state_of-append r.raw_product_id db.products (new_product (suc db.product_seq))
                  (λ e. ne (cc e))
                ∙ h.mirrored;
            leased = h.leased;
          })
          db.outbox v.fits;
    outbox_ids = v.outbox_ids;
    product_ids =
        All-append (λ q. q.id ≤ suc db.product_seq) db.products _
          (All-map_mono (λ q. q.id ≤ db.product_seq) (λ q. q.id ≤ suc db.product_seq)
            (λ q h. omega arith) db.products v.product_ids)
          (omega arith, tt);
  }

  refreshed-IsPrepared :
      (q : RawProduct)
      → find (same_product snapshot) db.products ≡ some q
      → IsPrepared q.id (record db {
        products =
            update_where (λ p. p.id == q.id) (refresh_product snapshot structured now) db.products;
      })
  refreshed-IsPrepared q e =
      let moved =
        state_of-update (λ i. i == q.id) (refresh_product snapshot structured now) pending
          (λ p. unfold refresh_product in refl) (λ p. unfold refresh_product in refl) in
      record {
        state =
            moved q.id db.products
            ∙ ground (arith, state_of-find (same_product snapshot) db.products e);
        distinct = v.distinct;
        others =
            All-map_mono (FitsProducts db.products) _
              (λ r h ne. record {
                mirrored = moved r.raw_product_id db.products ∙ ground (arith, h.mirrored, ne);
                leased = h.leased;
              })
              db.outbox v.fits;
        outbox_ids = v.outbox_ids;
        product_ids =
            All-update_where (λ q. q.id ≤ db.product_seq) (λ q. q.id ≤ db.product_seq)
              (λ p. p.id == q.id) (refresh_product snapshot structured now)
              (λ q h. unfold refresh_product in ground (arith, h)) db.products v.product_ids;
      }

  -- Writing the product, new or known, prepares the store.
  pub upsert_raw_product-IsPrepared :
      Ensures (λ r. IsPrepared r.0 r.1) (upsert_raw_product snapshot structured now db)
  unfolding upsert_raw_product
  upsert_raw_product-IsPrepared = elim (Option-cases (find (same_product snapshot) db.products)) [
    | inr (q, e) ↦ rw (e, upsert_raw_product) (refreshed-IsPrepared q e)
    | inl e ↦ elim (Bool-cases (run_exists snapshot.scrape_run_id db)) [
      | inl t ↦ rw (e, t, upsert_raw_product) inserted-IsPrepared
      | inr f ↦ rw (e, f, upsert_raw_product) tt
    ]
  ]
