-- ===== src/Store/Rows.antt =====
-- The records that the store works on: the snapshot (domain/scraped_product.py), the event and
-- its parts (domain/publication_event.py), and a row of each table (the `create table` statements
-- of infrastructure/persistence/sqlite_store.py).
use doxx.Base.{ℕ, String, Bool, Option, List}

-- A value of a `dict[str, Any]`: `scalar` is a text, number or Boolean, by its `str()`.
mutual
  pub data Json : Type 0 where
    null : Json
    scalar : String → Json
    arr : Items → Json
    obj : Fields → Json

  pub data Items : Type 0 where
    nil : Items
    cons : Json → Items → Items

  pub data Fields : Type 0 where
    end : Fields
    field : String → Json → Fields → Fields

-- Times are microseconds since the start of year 1.
abbrev pub Time : Type 0
Time = ℕ

pub record ScrapedProductSnapshot : Type 0 where
  pub store_name : String
  pub source_url : String
  pub source_id : Option String
  pub title : String
  pub brand : Option String
  pub price_raw : Option String
  pub in_stock : Option Bool
  pub raw_specs : Fields
  pub image_urls : List String
  pub description : Option String
  pub category_hint : Option String
  pub external_ids : List (String × String)
  pub scraped_at : Time
  pub payload_hash : String
  pub raw_payload : Fields
  pub scrape_run_id : String
  pub identity_key : String

pub record ScrapedProductPayload : Type 0 where
  pub store_name : String
  pub source_url : String
  pub source_id : Option String
  pub title : String
  pub brand : Option String
  pub price_raw : Option String
  pub in_stock : Option Bool
  pub raw_specs : Fields
  pub image_urls : List String
  pub description : Option String
  pub category_hint : Option String
  pub external_ids : List (String × String)
  pub scraped_at : Time
  pub payload_hash : String
  pub raw_payload_snapshot : Fields
  pub scrape_run_id : String
  pub identity_key : String

-- The texts that the columns `status` and `publication_state` hold; `leased` is Postgres's word
-- for `publishing`.
pub data Status : Type 0 where
  pending publishing leased published retryable failed : Status

pub record PublicationMetadata : Type 0 where
  pub publication_version : ℕ
  pub exchange_name : Option String
  pub queue_name : Option String
  pub routing_key : Option String
  pub outbox_status : Status
  pub attempt_number : ℕ
  pub publisher_service : Option String
  pub outbox_created_at : Time
  pub published_at : Option Time

pub record ScraperProductEvent : Type 0 where
  pub event_id : String
  pub event_type : String
  pub schema_version : ℕ
  pub store_name : String
  pub source_id : Option String
  pub source_url : String
  pub scrape_run_id : String
  pub scraped_at : Time
  pub payload_hash : String
  pub structured_payload : ScrapedProductPayload
  pub publication : PublicationMetadata

pub data RunStatus : Type 0 where
  running completed partial_failure run_failed : RunStatus

pub record ScrapeRun : Type 0 where
  pub run_id : String
  pub store_name : String
  pub spider_name : String
  pub started_at : Time
  pub finished_at : Option Time
  pub status : RunStatus
  pub items_scraped : ℕ
  pub items_persisted : ℕ
  pub items_failed : ℕ
  pub category_urls : List String
  pub created_at : Time
  pub updated_at : Time

-- The columns that a row of `raw_products` copies from its snapshot are the field `columns`.
pub record RawProduct : Type 0 where
  pub id : ℕ
  pub columns : ScrapedProductSnapshot
  pub structured_payload_json : String
  pub publication_state : Status
  pub created_at : Time
  pub updated_at : Time

pub record ProductImage : Type 0 where
  pub raw_product_id : ℕ
  pub image_url : String
  pub position : ℕ
  pub created_at : Time
  pub updated_at : Time

pub record ProductSpec : Type 0 where
  pub raw_product_id : ℕ
  pub spec_name : String
  pub spec_value : String
  pub source_section : Option String
  pub position : ℕ
  pub created_at : Time
  pub updated_at : Time

pub record OutboxRow : Type 0 where
  pub id : ℕ
  pub raw_product_id : ℕ
  pub event_id : String
  pub event_type : String
  pub schema_version : ℕ
  pub scrape_run_id : String
  pub store_name : String
  pub source_id : Option String
  pub source_url : String
  pub payload_hash : String
  pub exchange_name : String
  pub routing_key : String
  pub payload_json : String
  pub status : Status
  pub available_at : Time
  pub published_at : Option Time
  pub retry_count : ℕ
  pub last_error : Option String
  pub lease_owner : Option String
  pub lease_expires_at : Option Time
  pub created_at : Time
  pub updated_at : Time

pub record Attempt : Type 0 where
  pub outbox_id : ℕ
  pub attempt_number : ℕ
  pub attempted_at : Time
  pub success : Bool
  pub error_message : Option String
  pub publisher_name : Option String
  pub created_at : Time

-- The database. `product_seq` and `outbox_seq` are the `autoincrement` counters: the last id used.
pub record Db : Type 0 where
  pub runs : List ScrapeRun
  pub products : List RawProduct
  pub images : List ProductImage
  pub specs : List ProductSpec
  pub outbox : List OutboxRow
  pub attempts : List Attempt
  pub product_seq : ℕ
  pub outbox_seq : ℕ
