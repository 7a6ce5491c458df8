-- ===== src/Store/History.antt =====
-- Every sequence of transactions on the SQLite store, by spiders and publishers in any order.
use doxx.Base.{ℕ, ◌≡◌, Bool, Option, some, List, [], String, Bool-cases, inl, inr, ◌=s=◌}
use doxx.Table.{exists}
use doxx.Store.Rows.{Time, Db, RunStatus, ScrapedProductSnapshot, ScraperProductEvent}
use doxx.Store.Env.{Externals, Settings}
use doxx.Store.Event.{Target}
use doxx.Store.Runs.{Stats, register_scrape_run, finish_scrape_run}
use doxx.Store.Persist.{PersistedRawProduct, persist_snapshot}
use doxx.Store.Outbox.{claim_outbox_batch}
use doxx.Store.Settle.{mark_outbox_published, mark_outbox_failed}
use doxx.Store.Valid.{IsValid}
use doxx.Store.Valid.Snapshots.{persist_snapshot-IsValid}
use doxx.Store.Valid.Claims.{claim_outbox_batch-IsValid}
use doxx.Store.Valid.Marks.{mark_outbox_published-IsValid, mark_outbox_failed-IsValid}

abbrev pub empty_db : Db
empty_db = record {
  runs = [];
  products = [];
  images = [];
  specs = [];
  outbox = [];
  attempts = [];
  product_seq = 0;
  outbox_seq = 0;
}

-- One committed transaction. A call that raises commits nothing, and is no step.
pub data Step (cfg : Settings) (ext : Externals) : Db → Db → Type 0 where
  register :
      (run_id store_name spider_name : String) (urls : List String) (now : Time) (db : Db)
      → Step cfg ext db (register_scrape_run run_id store_name spider_name urls now db)
  finish :
      (run_id : String) (status : RunStatus) (stats : Stats) (now : Time) (db : Db)
      → Step cfg ext db (finish_scrape_run run_id status stats now db)
  persist :
      (snapshot : ScrapedProductSnapshot) (target : Target) (now : Time) (db : Db)
      (r : PersistedRawProduct) (db' : Db)
      → persist_snapshot cfg ext snapshot target now db ≡ some (r, db')
      → Step cfg ext db db'
  claim :
      (batch_size : ℕ) (publisher_id : String) (lease_seconds : ℕ) (now : Time) (db : Db)
      → Step cfg ext db (claim_outbox_batch ext batch_size publisher_id lease_seconds now db).1
  publish :
      (event_id publisher_id : String) (event : Option ScraperProductEvent) (now : Time) (db : Db)
      → Step cfg ext db (mark_outbox_published ext event_id publisher_id event now db)
  fail :
      (event_id publisher_id message : String) (retry : Bool) (max_retries retry_base : Option ℕ)
      (now : Time) (db : Db)
      → Step cfg ext db
          (mark_outbox_failed cfg event_id publisher_id message retry max_retries retry_base now db)

pub data Reach (cfg : Settings) (ext : Externals) (start : Db) : Db → Type 0 where
  here : Reach cfg ext start start
  next : {db db' : Db} → Reach cfg ext start db → Step cfg ext db db' → Reach cfg ext start db'

module _ (cfg : Settings) (ext : Externals) where
  register-IsValid :
      (run_id store_name spider_name : String) (urls : List String) (now : Time) (db : Db)
      → IsValid db
      → IsValid (register_scrape_run run_id store_name spider_name urls now db)
  unfolding register_scrape_run
  register-IsValid run_id store_name spider_name urls now db v =
      elim (Bool-cases (exists (λ r. r.run_id =s= run_id) db.runs)) [
        | inl t ↦
            rw (t, register_scrape_run)
              (record {
                distinct = v.distinct;
                fits = v.fits;
                outbox_ids = v.outbox_ids;
                product_ids = v.product_ids;
              })
        | inr f ↦
            rw (f, register_scrape_run)
              (record {
                distinct = v.distinct;
                fits = v.fits;
                outbox_ids = v.outbox_ids;
                product_ids = v.product_ids;
              })
      ]

  finish-IsValid :
      (run_id : String) (status : RunStatus) (stats : Stats) (now : Time) (db : Db)
      → IsValid db
      → IsValid (finish_scrape_run run_id status stats now db)
  unfolding finish_scrape_run
  finish-IsValid run_id status stats now db v = record {
    distinct = v.distinct;
    fits = v.fits;
    outbox_ids = v.outbox_ids;
    product_ids = v.product_ids;
  }

  Step-IsValid : {db db' : Db} → Step cfg ext db db' → IsValid db → IsValid db'
  Step-IsValid (register run_id store_name spider_name urls now db) v =
      register-IsValid run_id store_name spider_name urls now db v
  Step-IsValid (finish run_id status stats now db) v = finish-IsValid run_id status stats now db v
  Step-IsValid (persist snapshot target now db r db' e) v =
      persist_snapshot-IsValid cfg ext snapshot target now db v e
  Step-IsValid (claim n owner lease now db) v =
      claim_outbox_batch-IsValid ext n owner lease now db v
  Step-IsValid (publish event_id owner event now db) v =
      mark_outbox_published-IsValid ext event_id owner event now db v
  Step-IsValid (fail event_id owner message retry m b now db) v =
      mark_outbox_failed-IsValid cfg event_id owner message retry m b now db v

  empty-IsValid : IsValid empty_db
  empty-IsValid = record { distinct = tt; fits = tt; outbox_ids = tt; product_ids = tt }

  -- From an empty store, after any transactions in any order: no two outbox rows share an id, a
  -- product or an event; the product of each row exists and shows the row's status; and a row has
  -- a lease exactly while it is being published.
  pub Reach-IsValid : {db : Db} → Reach cfg ext empty_db db → IsValid db
  Reach-IsValid here = empty-IsValid
  Reach-IsValid (next r s) = Step-IsValid s (Reach-IsValid r)
