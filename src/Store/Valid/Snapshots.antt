-- ===== src/Store/Valid/Snapshots.antt =====
-- `persist_snapshot` keeps the invariant of the store.
use doxx.Base.{
  ℕ, ◌≡◌, Option, none, some, List, String, Ensures, Ensures-some, Option-cases, inl, inr, ◌==◌,
}
use doxx.Table.{delete_where}
use doxx.Store.Specs.{flatten_specs}
use doxx.Store.Rows.{Time, pending, Fields, Db, ScrapedProductSnapshot}
use doxx.Store.Env.{Externals, Settings}
use doxx.Store.Event.{Target}
use doxx.Store.Details.{replace_image_rows, replace_spec_rows, insert_images, insert_specs}
use doxx.Store.Persist.{◌>>=◌, PersistedRawProduct, persist_snapshot}
use doxx.Store.Valid.{IsValid, state_of}
use doxx.Store.Valid.Persists.{IsPrepared, upsert_raw_product-IsPrepared}
use doxx.Store.Valid.Enqueues.{upsert_outbox_row-IsValid, set_pending-IsValid}

-- A property passes along a step of a transaction.
Ensures-bind {ℓ κ μ ν} :
    {A : Type ℓ} {B : Type κ} (P : A → Type μ) (Q : B → Type ν) (m : Option A) (f : A → Option B)
    → Ensures P m
    → ((a : A) → P a → Ensures Q (f a))
    → Ensures Q (m >>= f)
Ensures-bind P Q none f h k = tt
Ensures-bind P Q (some a) f h k = k a h

module _ (id : ℕ) (db : Db) (h : IsPrepared id db) where
  replace_image_rows-IsPrepared :
      (urls : List String) (now : Time)
      → Ensures (IsPrepared id) (replace_image_rows id urls now db)
  unfolding replace_image_rows
  replace_image_rows-IsPrepared urls now =
      elim (Option-cases
        (insert_images id now 0 urls (delete_where (λ i. i.raw_product_id == id) db.images))) [
          | inl e ↦ rw (e, replace_image_rows) tt
          | inr (rows, e) ↦
              rw (e, replace_image_rows)
                (record {
                  state = h.state;
                  distinct = h.distinct;
                  others = h.others;
                  outbox_ids = h.outbox_ids;
                  product_ids = h.product_ids;
                })
        ]

  replace_spec_rows-IsPrepared :
      (ext : Externals) (raw_specs : Fields) (now : Time)
      → Ensures (IsPrepared id) (replace_spec_rows ext id raw_specs now db)
  unfolding replace_spec_rows
  replace_spec_rows-IsPrepared ext raw_specs now =
      elim (Option-cases (
        insert_specs id now 0 (flatten_specs ext raw_specs)
          (delete_where (λ s. s.raw_product_id == id) db.specs))) [
            | inl e ↦ rw (e, replace_spec_rows) tt
            | inr (rows, e) ↦
                rw (e, replace_spec_rows)
                  (record {
                    state = h.state;
                    distinct = h.distinct;
                    others = h.others;
                    outbox_ids = h.outbox_ids;
                    product_ids = h.product_ids;
                  })
          ]

-- Every statement of the transaction is followed through.
persist_snapshot-Ensures :
    (cfg : Settings) (ext : Externals) (snapshot : ScrapedProductSnapshot) (target : Target)
    (now : Time) (db : Db)
    → IsValid db
    → Ensures (λ r. IsValid r.1) (persist_snapshot cfg ext snapshot target now db)
unfolding persist_snapshot
persist_snapshot-Ensures cfg ext snapshot target now db v =
    Ensures-bind (λ r. IsPrepared r.0 r.1) (λ r. IsValid r.1) _ _
      (upsert_raw_product-IsPrepared snapshot _ now db v)
      λ a h.
        Ensures-bind (IsPrepared a.0) (λ r. IsValid r.1) _ _
          (replace_image_rows-IsPrepared a.0 a.1 h snapshot.image_urls now)
          λ db2 h2.
            Ensures-bind (IsPrepared a.0) (λ r. IsValid r.1) _ _
              (replace_spec_rows-IsPrepared a.0 db2 h2 ext snapshot.raw_specs now)
              λ db3 h3.
                Ensures-bind (λ r. IsValid r.1 × (state_of a.0 r.1.products ≡ some pending))
                  (λ r. IsValid r.1) _ _
                  (upsert_outbox_row-IsValid cfg a.0 snapshot _ target _ now db3 h3)
                  λ b h4. set_pending-IsValid a.0 now b.1 h4.0 h4.1

-- A snapshot that is persisted leaves a valid store; one that is refused leaves the old one.
pub persist_snapshot-IsValid :
    (cfg : Settings) (ext : Externals) (snapshot : ScrapedProductSnapshot) (target : Target)
    (now : Time) (db : Db) {r : PersistedRawProduct × Db}
    → IsValid db
    → persist_snapshot cfg ext snapshot target now db ≡ some r
    → IsValid r.1
persist_snapshot-IsValid cfg ext snapshot target now db v e =
    Ensures-some (λ r. IsValid r.1) (persist_snapshot cfg ext snapshot target now db)
      (persist_snapshot-Ensures cfg ext snapshot target now db v) e
