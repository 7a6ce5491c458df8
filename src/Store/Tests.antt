-- ===== src/Store/Tests.antt =====
-- Runs of the store on one product.
use doxx.Base.{
  leb, ◌≤◌, ◌≡◌, ◌≢◌, refl, String, true, false, not, Option, none, some, [], ◌∷◌, arith, map, take,
  drop, length, filter, is_empty, mem_nat, All, eq_iff,
}
use mathlib.Core.List.{Perm}
use doxx.Store.Rows.{pending, publishing, Db}
use doxx.Store.Outbox.{
  claimable, ready_ids, claim_outbox_batch, has_claimable_outbox_rows, ready_ids,
}
use doxx.Store.Outbox.Sorting.Laws.{LeKey}
use doxx.Store.Product.{upsert_raw_product}
use doxx.Store.Specs.{flatten_specs}
use doxx.Store.Enqueue.{upsert_outbox_row}
use doxx.Store.Event.{event_id_of}
use doxx.Store.Details.{
  replace_image_rows, insert_images, image_conflict, replace_spec_rows, insert_specs,
}
use doxx.Store.Runs.{register_scrape_run}
use doxx.Store.Persist.{PersistedRawProduct, persist_snapshot}
use doxx.Store.Valid.{IsValid}
use doxx.Store.History.{here, next, register, persist, claim, empty_db, Reach-IsValid}
use doxx.Store.Claiming.{
  created, ready_rows, CreatedBefore, ready_ids-oldest, claims_exclusive, has_claimable-eq-ready,
}
use doxx.Store.Marking.{row_of, HasFailed, fail_at, retries_exhaust}
use doxx.Store.Stranded.{claim_all, publishing_stranded}
use doxx.Store.Postgres.{ready, selected_ids, claim_batch}
use doxx.Store.Leases.{claim_batch-leases}
use doxx.Store.Samples.{settings, ext, phone, target, phone_row, waiting, taken}

abbrev db_of : Option (PersistedRawProduct × Db) → Db
db_of none = empty_db
db_of (some (r, db)) = db

abbrev phone_stored : PersistedRawProduct
phone_stored = record {
  raw_product_id = 1;
  outbox_id = 1;
  event_id = "e1";
  payload_hash = "h1";
  publication_state = pending;
}

-- A run is registered and the phone is stored; then a publisher takes it.
abbrev registered : Db
registered = register_scrape_run "run-1" "mediapark" "mediapark" [] 1000000 empty_db

abbrev after_claim : Db
after_claim =
    (claim_outbox_batch ext 10 "p1" 60 3000000
      (db_of (persist_snapshot settings ext phone target 1000000 registered))).1

phone_persisted :
    persist_snapshot settings ext phone target 1000000 registered
    ≡ some (phone_stored, db_of (persist_snapshot settings ext phone target 1000000 registered))
unfolding register_scrape_run persist_snapshot upsert_raw_product replace_image_rows insert_images
    image_conflict replace_spec_rows insert_specs flatten_specs upsert_outbox_row event_id_of
phone_persisted = refl

Reach-IsValid_example : IsValid after_claim
Reach-IsValid_example = Reach-IsValid settings ext (
    next
      (next (next here (register "run-1" "mediapark" "mediapark" [] 1000000 empty_db))
        (persist phone target 1000000 registered phone_stored _ phone_persisted))
      (claim 10 "p1" 60 3000000 _))

ready_ids-oldest_example :
    (length (ready_ids 10 1000000 waiting) ≤ 10)
    × (ready_ids 10 1000000 waiting ≡ map (λ r. r.id) (take 10 (ready_rows 1000000 waiting)))
    × Perm (ready_rows 1000000 waiting) (filter (claimable 1000000) waiting.outbox)
    × All
        (λ r. All (LeKey created r) (drop 10 (ready_rows 1000000 waiting)))
        (take 10 (ready_rows 1000000 waiting))
    × All
        (λ r. All (CreatedBefore r) (drop 10 (ready_rows 1000000 waiting)))
        (take 10 (ready_rows 1000000 waiting))
ready_ids-oldest_example = ready_ids-oldest 10 1000000 waiting

claims_exclusive_example :
    All
      (λ i. mem_nat i (ready_ids 10 1000000 waiting) ≡ false)
      (ready_ids 5 9000000 (claim_outbox_batch ext 10 "p1" 60 1000000 waiting).1)
claims_exclusive_example = claims_exclusive ext 10 5 "p1" 60 1000000 9000000 waiting

has_claimable-eq-ready_example :
    has_claimable_outbox_rows 1000000 waiting ≡ not (is_empty (ready_ids 1 1000000 waiting))
has_claimable-eq-ready_example = has_claimable-eq-ready 0 1000000 waiting

retries_exhaust_example :
    HasFailed "e1" 2 2 (fail_at settings "e1" "p1" "broken" 2 30 (5000000 ∷ 50000000 ∷ []) taken)
retries_exhaust_example =
    retries_exhaust settings "e1" "p1" "broken" 2 30 5000000 (50000000 ∷ []) taken refl
      (omega arith) (omega arith)

taken-IsValid : IsValid taken
taken-IsValid = record {
  distinct = (tt, tt);
  fits = (record { mirrored = refl; leased = (λ e. cc e, λ e. cc e) }, tt);
  outbox_ids = (omega arith, tt);
  product_ids = (omega arith, tt);
}

-- Two publishers look for rows an hour after the lease has ended.
publishing_stranded_example :
    row_of "e1" (
      claim_all ext
        (record { batch_size = 10; publisher_id = "p2"; lease_seconds = 60; now = 3600000000 }
          ∷ record { batch_size = 10; publisher_id = "p1"; lease_seconds = 60; now = 3700000000 }
          ∷ [])
        taken)
    ≡ some (phone_row publishing (some "p1") (some 2000000))
publishing_stranded_example =
    publishing_stranded ext
      (record { batch_size = 10; publisher_id = "p2"; lease_seconds = 60; now = 3600000000 }
        ∷ record { batch_size = 10; publisher_id = "p1"; lease_seconds = 60; now = 3700000000 }
        ∷ [])
      "e1" taken taken-IsValid refl refl

abbrev a_jpg : String
a_jpg = "https://mediapark.uz/a.jpg"

abbrev b_jpg : String
b_jpg = "https://mediapark.uz/b.jpg"

pictures-differ : a_jpg ≢ b_jpg
pictures-differ e = let same : false ≡ true = (eq_iff a_jpg b_jpg).1 e in cc same

-- The phone is taken at one second for a minute. A second before that minute is over it is not ready.
claim_batch-leases_example :
    All
      (λ r.
        mem_nat r.id (selected_ids (λ i. false) 10 1000000 waiting) ≡ true
        → ready 60000000 r ≡ leb 61000000 60000000)
      (claim_batch ext (λ i. false) 10 "p1" 60 1000000 waiting).1.outbox
claim_batch-leases_example = claim_batch-leases ext (λ i. false) 10 "p1" 60 1000000 60000000 waiting
