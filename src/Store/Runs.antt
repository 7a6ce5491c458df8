-- ===== src/Store/Runs.antt =====
-- `register_scrape_run` and `finish_scrape_run` of infrastructure/persistence/sqlite_store.py.
use doxx.Base.{ℕ, String, Option, none, some, List, [], ◌∷◌, ◌++◌, ◌=s=◌, ◌==◌, if◌then◌else◌}
use doxx.Table.{update_where, exists}
use doxx.Store.Rows.{Time, RunStatus, running, Db}

-- An upsert: a run that is registered again keeps its counters and its start.
unfoldable pub register_scrape_run : String → String → String → List String → Time → Db → Db
register_scrape_run run_id store_name spider_name category_urls now db =
    if exists (λ r. r.run_id =s= run_id) db.runs
    then record db {
      runs =
          update_where (λ r. r.run_id =s= run_id)
            (λ r. record r {
              store_name = store_name;
              spider_name = spider_name;
              status = running;
              category_urls = category_urls;
              updated_at = now;
            })
            db.runs;
    }
    else record db {
      runs =
          db.runs
          ++ (record {
            run_id = run_id;
            store_name = store_name;
            spider_name = spider_name;
            started_at = now;
            finished_at = none;
            status = running;
            items_scraped = 0;
            items_persisted = 0;
            items_failed = 0;
            category_urls = category_urls;
            created_at = now;
            updated_at = now;
          }
              ∷ []);
    }

-- The entries of `stats` that are read; `none` is a missing key.
pub record Stats : Type 0 where
  pub items_scraped : Option ℕ
  pub item_scraped_count : Option ℕ
  pub items_persisted : Option ℕ
  pub items_failed : Option ℕ
  pub item_dropped_count : Option ℕ

-- `int(a or b or 0)`
unfoldable pub first_nonzero : Option ℕ → Option ℕ → ℕ
first_nonzero none none = 0
first_nonzero none (some b) = b
first_nonzero (some a) none = a
first_nonzero (some a) (some b) = if a == 0 then b else a

unfoldable pub finish_scrape_run : String → RunStatus → Stats → Time → Db → Db
finish_scrape_run run_id status stats now db = record db {
  runs =
      update_where (λ r. r.run_id =s= run_id)
        (λ r. record r {
          finished_at = some now;
          status = status;
          items_scraped = first_nonzero stats.items_scraped stats.item_scraped_count;
          items_persisted = first_nonzero stats.items_persisted none;
          items_failed = first_nonzero stats.items_failed stats.item_dropped_count;
          updated_at = now;
        })
        db.runs;
}
