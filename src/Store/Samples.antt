-- ===== src/Store/Samples.antt =====
-- Data for the tests: a product of a store, its row in the outbox, and databases that hold them.
use doxx.Base.{String, true, Option, none, some, [], ◌∷◌}
use doxx.Store.Rows.{
  Time, Status, pending, publishing, end, ScrapedProductSnapshot, ScraperProductEvent, RawProduct,
  OutboxRow, Attempt, Db,
}
use doxx.Store.Env.{Settings, Externals}
use doxx.Store.Event.{Target, build_scraper_product_event}

abbrev pub settings : Settings
settings = record {
  message_schema_version = 1;
  rabbitmq_queue = "scraper.products.v1";
  scraper_outbox_max_retries = 12;
  scraper_outbox_retry_base_seconds = 30;
}

abbrev pub phone : ScrapedProductSnapshot
phone = record {
  store_name = "mediapark";
  source_url = "https://mediapark.uz/p/1";
  source_id = some "1";
  title = "Phone";
  brand = none;
  price_raw = some "100";
  in_stock = some true;
  raw_specs = end;
  image_urls = "https://mediapark.uz/a.jpg" ∷ "https://mediapark.uz/b.jpg" ∷ [];
  description = none;
  category_hint = none;
  external_ids = [];
  scraped_at = 1000000;
  payload_hash = "h1";
  raw_payload = end;
  scrape_run_id = "run-1";
  identity_key = "mediapark:1";
}

abbrev pub target : Target
target = record {
  event_type = "scraper.product.scraped.v1";
  exchange_name = "moscraper.events";
  routing_key = "listing.scraped.v1";
}

-- The event of the phone, as it is read back.
abbrev pub phone_event : ScraperProductEvent
phone_event = build_scraper_product_event settings phone "e1" target 1000000

abbrev pub ext : Externals
ext = record {
  uuid5 = λ s. "e1";
  dumps_event = λ e. e.event_id;
  loads_event = λ s. some phone_event;
  dumps_payload = λ p. p.title;
  json_dumps = λ j. "{}";
  str_of = λ j. "";
}

-- The row of the phone, with a status and what goes with it.
abbrev pub phone_row : Status → Option String → Option Time → OutboxRow
phone_row status owner expires = record {
  id = 1;
  raw_product_id = 1;
  event_id = "e1";
  event_type = "scraper.product.scraped.v1";
  schema_version = 1;
  scrape_run_id = "run-1";
  store_name = "mediapark";
  source_id = some "1";
  source_url = "https://mediapark.uz/p/1";
  payload_hash = "h1";
  exchange_name = "moscraper.events";
  routing_key = "listing.scraped.v1";
  payload_json = "e1";
  status = status;
  available_at = 1000000;
  published_at = none;
  retry_count = 0;
  last_error = none;
  lease_owner = owner;
  lease_expires_at = expires;
  created_at = 1000000;
  updated_at = 1000000;
}

abbrev pub phone_product : Status → RawProduct
phone_product status = record {
  id = 1;
  columns = phone;
  structured_payload_json = "Phone";
  publication_state = status;
  created_at = 1000000;
  updated_at = 1000000;
}

abbrev pub db_with : Status → Option String → Option Time → Db
db_with status owner expires = record {
  runs = [];
  products = phone_product status ∷ [];
  images = [];
  specs = [];
  outbox = phone_row status owner expires ∷ [];
  attempts = [];
  product_seq = 1;
  outbox_seq = 1;
}

-- The phone waits to be published.
abbrev pub waiting : Db
waiting = db_with pending none none

-- A publisher has taken the phone, and its lease ends at two seconds.
abbrev pub taken : Db
taken = db_with publishing (some "p1") (some 2000000)

abbrev pub attempt : Attempt
attempt = record {
  outbox_id = 1;
  attempt_number = 1;
  attempted_at = 1000000;
  success = true;
  error_message = none;
  publisher_name = some "p1";
  created_at = 1000000;
}
