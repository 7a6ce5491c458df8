-- ===== src/Store/Event.antt =====
-- The event of a snapshot: application/ingestion/event_builder.py, and the event's id, from
-- `persist_snapshot` of infrastructure/persistence/sqlite_store.py.
use Prim.Native.String.{◌++◌}
use doxx.Base.{String, some, none}
use doxx.Store.Rows.{Time, pending, ScrapedProductSnapshot, ScraperProductEvent}
use doxx.Store.Env.{Settings, Externals}

-- Where and how an event is to be published.
pub record Target : Type 0 where
  pub event_type : String
  pub exchange_name : String
  pub routing_key : String

unfoldable pub event_id_of : Externals → ScrapedProductSnapshot → String
event_id_of ext snapshot =
    ext.uuid5 ("outbox:" ++ (snapshot.scrape_run_id ++ (":" ++ snapshot.identity_key)))

-- The texts are taken as pydantic leaves them: without white space at their ends.
unfoldable pub build_scraper_product_event :
    Settings → ScrapedProductSnapshot → String → Target → Time → ScraperProductEvent
build_scraper_product_event cfg snapshot event_id target created = record {
  event_id = event_id;
  event_type = target.event_type;
  schema_version = cfg.message_schema_version;
  store_name = snapshot.store_name;
  source_id = snapshot.source_id;
  source_url = snapshot.source_url;
  scrape_run_id = snapshot.scrape_run_id;
  scraped_at = snapshot.scraped_at;
  payload_hash = snapshot.payload_hash;
  structured_payload = record {
    store_name = snapshot.store_name;
    source_url = snapshot.source_url;
    source_id = snapshot.source_id;
    title = snapshot.title;
    brand = snapshot.brand;
    price_raw = snapshot.price_raw;
    in_stock = snapshot.in_stock;
    raw_specs = snapshot.raw_specs;
    image_urls = snapshot.image_urls;
    description = snapshot.description;
    category_hint = snapshot.category_hint;
    external_ids = snapshot.external_ids;
    scraped_at = snapshot.scraped_at;
    payload_hash = snapshot.payload_hash;
    raw_payload_snapshot = snapshot.raw_payload;
    scrape_run_id = snapshot.scrape_run_id;
    identity_key = snapshot.identity_key;
  };
  publication = record {
    publication_version = cfg.message_schema_version;
    exchange_name = some target.exchange_name;
    queue_name = some cfg.rabbitmq_queue;
    routing_key = some target.routing_key;
    outbox_status = pending;
    attempt_number = 0;
    publisher_service = none;
    outbox_created_at = created;
    published_at = none;
  };
}
