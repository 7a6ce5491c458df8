-- ===== src/Contract/Laws.antt =====
-- Which snapshots give an event that may be published.
use doxx.Base.{
  ℕ, suc, ◌≤◌, ◌≡◌, refl, Bool, true, false, Option, none, some, List, [], ◌∷◌, arith, String, All,
  length, is_empty, leb, ◌==◌,
}
use text.Mathlib.TextPositions.{eq_refl}
use doxx.Fingerprint.{UrlSplit, is_valid_http_url}
use doxx.Contract.{
  Violation, contract_errors, payload_errors, publication_errors, image_errors, is_non_empty,
  is_non_empty_opt, is_some, same_text_opt, require, scraper_product_event_type,
}
use doxx.Store.Rows.{Time, ScrapedProductSnapshot, ScraperProductEvent, OutboxRow}
use doxx.Store.Env.{Settings, Externals}
use doxx.Store.Outbox.{ClaimedOutboxMessage, decode_rows}
use doxx.Store.Event.{Target, build_scraper_product_event}
use doxx.Publisher.{PublisherServiceConfig, build_delivery_event}

image_errors-none :
    (urlsplit : UrlSplit) (n : ℕ) (us : List String) (rest : List Violation)
    → All (λ u. is_valid_http_url urlsplit u ≡ true) us
    → image_errors urlsplit n us rest ≡ rest
unfolding image_errors
image_errors-none urlsplit n [] rest h = refl
image_errors-none urlsplit n (u ∷ us) rest h =
    rw h.0 (image_errors-none urlsplit (suc n) us rest h.1)

same_text_opt_refl : (o : Option String) → same_text_opt o o ≡ true
same_text_opt_refl none = refl
same_text_opt_refl (some s) = eq_refl s

nat_refl : (n : ℕ) → (n == n) ≡ true
nat_refl n = ground arith

le→leb : (a b : ℕ) → a ≤ b → leb a b ≡ true
le→leb a b h = ground arith

-- What the scraper knows of a snapshot whose event can be published.
pub record IsPublishable (urlsplit : UrlSplit) (s : ScrapedProductSnapshot) : Type 0 where
  pub store_name : is_non_empty s.store_name ≡ true
  pub source_url : is_valid_http_url urlsplit s.source_url ≡ true
  pub scrape_run_id : is_non_empty s.scrape_run_id ≡ true
  pub payload_hash : is_non_empty s.payload_hash ≡ true
  pub title : is_non_empty s.title ≡ true
  pub in_stock : is_some s.in_stock ≡ true
  pub identity_key : is_non_empty s.identity_key ≡ true
  pub few_images : length s.image_urls ≤ 100
  pub image_urls : All (λ u. is_valid_http_url urlsplit u ≡ true) s.image_urls

-- What the worker is configured with.
pub record IsConfigured (cfg : PublisherServiceConfig) : Type 0 where
  pub exchange_name : is_non_empty cfg.exchange_name ≡ true
  pub queue_name : is_non_empty cfg.queue_name ≡ true
  pub routing_key : is_non_empty cfg.routing_key ≡ true
  pub publisher_service : is_non_empty cfg.publisher_service_name ≡ true

module _ (urlsplit : UrlSplit) (settings : Settings) (cfg : PublisherServiceConfig)
    (snapshot : ScrapedProductSnapshot) (target : Target) (id : String)
    (created at_time : Time) where
  -- The event that is written to the outbox when the snapshot is persisted.
  abbrev pub persisted : ScraperProductEvent
  persisted = build_scraper_product_event settings snapshot id target created

  built_passes :
      (message : ClaimedOutboxMessage)
      → message.payload ≡ persisted
      → IsPublishable urlsplit snapshot
      → IsConfigured cfg
      → settings.message_schema_version ≡ 1
      → target.event_type ≡ scraper_product_event_type
      → is_non_empty id ≡ true
      → contract_errors urlsplit (build_delivery_event cfg message at_time) ≡ []
  unfolding contract_errors payload_errors publication_errors build_delivery_event
      build_scraper_product_event is_non_empty_opt
  built_passes message same p c v t i = rw same (
      simp (
        i,
        t,
        v,
        p.store_name,
        p.source_url,
        p.scrape_run_id,
        p.payload_hash,
        p.title,
        p.in_stock,
        p.identity_key,
        c.exchange_name,
        c.queue_name,
        c.routing_key,
        c.publisher_service,
        eq_refl,
        same_text_opt_refl,
        nat_refl,
        image_errors-none urlsplit 0 snapshot.image_urls _ p.image_urls,
        le→leb _ _ p.few_images,
      ))

  -- A row that holds the event of a publishable snapshot as JSON is decoded by a claim into a message
  -- of which the worker's event passes the contract in full: where the schema version of the settings
  -- is 1, the target's event type is the contract's, the event's id is not blank, the worker's
  -- exchange, queue, routing key and name are not blank, and pydantic reads back from the JSON of
  -- this event the event itself.
  pub delivered_passes :
      (ext : Externals) (row : OutboxRow)
      → row.payload_json ≡ ext.dumps_event persisted
      → ext.loads_event (ext.dumps_event persisted) ≡ some persisted
      → IsPublishable urlsplit snapshot
      → IsConfigured cfg
      → settings.message_schema_version ≡ 1
      → target.event_type ≡ scraper_product_event_type
      → is_non_empty id ≡ true
      → (message : ClaimedOutboxMessage) × (decode_rows ext (row ∷ []) ≡ some (message ∷ []))
        × (contract_errors urlsplit (build_delivery_event cfg message at_time) ≡ [])
  unfolding decode_rows
  delivered_passes ext row written read p c v t i =
      let message : ClaimedOutboxMessage = record {
        event_id = row.event_id;
        exchange_name = row.exchange_name;
        routing_key = row.routing_key;
        attempt_count = row.retry_count;
        payload = persisted;
      } in
      (message, rw (written, read, decode_rows) refl, built_passes message refl p c v t i)

require-keeps :
    (ok : Bool) (v : Violation) (rest : List Violation)
    → is_empty rest ≡ false
    → is_empty (require ok v rest) ≡ false
require-keeps true v rest h = h
require-keeps false v rest h = refl

-- An event whose stock is unknown is never accepted, whatever else it holds.
pub unknown_stock_refused :
    (urlsplit : UrlSplit) (e : ScraperProductEvent)
    → e.structured_payload.in_stock ≡ none
    → is_empty (contract_errors urlsplit e) ≡ false
unfolding contract_errors payload_errors
unknown_stock_refused urlsplit e h = rw (h, contract_errors) (search require-keeps depth 20)
