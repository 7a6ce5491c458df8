-- ===== src/Contract.antt =====
-- `assert_rabbit_publish_contract` of domain/publication_event.py: what an event must satisfy
-- before it is sent to RabbitMQ.
pub mod Laws
use doxx.Base.{
  ℕ, suc, String, Bool, true, false, not, ◌&&◌, ◌||◌, Option, none, some, List, [], ◌∷◌, ◌++◌, ltb,
  leb, length, ◌==◌, ◌=s=◌, if◌then◌else◌,
}
use doxx.Fingerprint.{UrlSplit, is_valid_http_url, is_blank, strip_start, strip_end}
use doxx.Store.Rows.{Status, published, ScraperProductEvent, ScrapedProductPayload}

-- The entries of `errors`, one constructor for each message.
pub data Violation : Type 0 where
  event_id event_type schema_version store_name source_url scrape_run_id payload_hash : Violation
  payload_store_name payload_source_url payload_source_id payload_scraped_at : Violation
  payload_payload_hash payload_scrape_run_id title in_stock identity_key image_count : Violation
  image_url : ℕ → Violation
  publication_version exchange_name queue_name routing_key outbox_status : Violation
  publisher_service published_at : Violation

-- `_is_non_empty_string`
unfoldable pub is_non_empty : String → Bool
is_non_empty s = not (is_blank (strip_end (strip_start s)))

unfoldable pub is_non_empty_opt : Option String → Bool
is_non_empty_opt none = false
is_non_empty_opt (some s) = is_non_empty s

abbrev pub same_text_opt : Option String → Option String → Bool
same_text_opt none none = true
same_text_opt none (some b) = false
same_text_opt (some a) none = false
same_text_opt (some a) (some b) = a =s= b

abbrev pub is_some {ℓ} : {A : Type ℓ} → Option A → Bool
is_some none = false
is_some (some a) = true

abbrev pub is_published : Status → Bool
is_published published = true
is_published _ = false

-- `if not ok: errors.append(v)`, before the errors that follow
abbrev pub require : Bool → Violation → List Violation → List Violation
require ok v rest = if ok then rest else v ∷ rest

unfoldable pub image_errors : UrlSplit → ℕ → List String → List Violation → List Violation
image_errors urlsplit index [] rest = rest
image_errors urlsplit index (u ∷ us) rest =
    let later = image_errors urlsplit (suc index) us rest in
    if is_valid_http_url urlsplit u then later else image_url index ∷ later

unfoldable pub publication_errors : ScraperProductEvent → List Violation
publication_errors e =
    let p = e.publication in
    require (leb 1 p.publication_version) publication_version (
      require (is_non_empty_opt p.exchange_name) exchange_name (
        require (is_non_empty_opt p.queue_name) queue_name (
          require (is_non_empty_opt p.routing_key) routing_key (
            require (is_published p.outbox_status) outbox_status (
              require (is_non_empty_opt p.publisher_service) publisher_service
                (require (is_some p.published_at) published_at []))))))

unfoldable pub payload_errors : UrlSplit → ScraperProductEvent → List Violation
payload_errors urlsplit e =
    let p = e.structured_payload in
    require (p.store_name =s= e.store_name) payload_store_name (
      require (p.source_url =s= e.source_url) payload_source_url (
        require (same_text_opt p.source_id e.source_id) payload_source_id (
          require (p.scraped_at == e.scraped_at) payload_scraped_at (
            require (p.payload_hash =s= e.payload_hash) payload_payload_hash (
              require (p.scrape_run_id =s= e.scrape_run_id) payload_scrape_run_id (
                require (is_non_empty p.title) title (
                  require (is_some p.in_stock) in_stock (
                    require (is_non_empty p.identity_key) identity_key (
                      require (leb (length p.image_urls) 100) image_count
                        (image_errors urlsplit 0 p.image_urls (publication_errors e)))))))))))

abbrev pub scraper_product_event_type : String
scraper_product_event_type = "scraper.product.scraped.v1"

-- The list that is raised as a `ValueError` if it is not empty. The tests that a field is a
-- dictionary, and that a count is not negative, hold by the types here.
unfoldable pub contract_errors : UrlSplit → ScraperProductEvent → List Violation
contract_errors urlsplit e = require (is_non_empty e.event_id) event_id (
    require (e.event_type =s= scraper_product_event_type) event_type (
      require (e.schema_version == 1) schema_version (
        require (is_non_empty e.store_name) store_name (
          require (is_valid_http_url urlsplit e.source_url) source_url (
            require (is_non_empty e.scrape_run_id) scrape_run_id
              (require (is_non_empty e.payload_hash) payload_hash (payload_errors urlsplit e)))))))
