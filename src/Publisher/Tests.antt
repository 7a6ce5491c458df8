-- ===== src/Publisher/Tests.antt =====
-- A run of the worker over one waiting product, the contract on its event, and image addresses.
use doxx.Base.{◌+◌, ◌≡◌, refl, Bool, true, false, Option, none, some, List, [], ◌∷◌, arith, All}
use doxx.Fingerprint.{
  UrlSplit, normalize_image_urls, is_valid_http_url, strip_start, strip_end, is_space,
}
use doxx.Fingerprint.Images.{IsCollected, normalize_image_urls-IsCollected}
use doxx.Store.Rows.{Db, pending}
use doxx.Store.Outbox.{
  ClaimedOutboxMessage, claim_outbox_batch, has_claimable_outbox_rows, ready_ids, claimable,
  lease_free, decode_rows, lease_ids, lease_row,
}
use doxx.Store.Outbox.Sorting.{insert_by, order_by}
use doxx.Store.Iso.{iso_le}
use doxx.Store.Samples.{settings, ext, phone, phone_event, target, phone_row, waiting}
use doxx.Store.Event.{build_scraper_product_event}
use doxx.Store.Valid.{IsValid}
use doxx.Publisher.{
  PublisherServiceConfig, PublicationRunResult, other_error, World, run_once, build_delivery_event,
}
use doxx.Publisher.Settling.{IsSettled}
use doxx.Publisher.Runs.{run_once_settles}
use doxx.Contract.{contract_errors, is_non_empty}
use doxx.Contract.Laws.{IsPublishable, IsConfigured, delivered_passes}

abbrev config : PublisherServiceConfig
config = record {
  exchange_name = "moscraper.events";
  queue_name = "scraper.products.v1";
  routing_key = "listing.scraped.v1";
  batch_size = 10;
  lease_seconds = 60;
  max_retries = 3;
  retry_base_seconds = 30;
  publisher_service_name = "publisher-service";
}

-- The broker is reached, and refuses the event.
abbrev refusing : World
refusing = record {
  clock = λ n. 2000000 + n;
  connect = true;
  publish = λ e. some (other_error "broker");
}

abbrev claimed_phone : Option (List ClaimedOutboxMessage) × Db
claimed_phone = claim_outbox_batch ext 10 "publisher-service" 60 2000001 waiting

abbrev message : ClaimedOutboxMessage
message = record {
  event_id = "e1";
  exchange_name = "moscraper.events";
  routing_key = "listing.scraped.v1";
  attempt_count = 0;
  payload = phone_event;
}

phone_claimed : claimed_phone ≡ (some (message ∷ []), claimed_phone.1)
unfolding claim_outbox_batch ready_ids order_by claimable iso_le lease_free insert_by decode_rows
    lease_ids lease_row
phone_claimed = refl

phone_ready : has_claimable_outbox_rows 2000000 waiting ≡ true
unfolding has_claimable_outbox_rows claimable iso_le lease_free
phone_ready = refl

waiting-IsValid : IsValid waiting
waiting-IsValid = record {
  distinct = (tt, tt);
  fits = (record { mirrored = refl; leased = (refl, refl) }, tt);
  outbox_ids = (omega arith, tt);
  product_ids = (omega arith, tt);
}

run_once_settles_example :
    (result : PublicationRunResult) × (db2 : Db) × (run_once settings ext config refusing waiting
      ≡ (some result, db2))
    × (result.claimed ≡ 1)
    × (result.published ≡ 0)
    × (result.published + result.failed ≡ 1)
    × All
        (λ (o : ClaimedOutboxMessage × Bool). IsSettled o.1 o.0.event_id db2)
        ((message, false) ∷ [])
run_once_settles_example =
    run_once_settles settings ext config refusing waiting waiting-IsValid phone_ready refl
      phone_claimed

-- Every address is one of the site's.
abbrev split_site : UrlSplit
split_site value = ("https", "mediapark.uz")

phone-IsPublishable : IsPublishable split_site phone
unfolding is_non_empty strip_start strip_end is_space is_valid_http_url
phone-IsPublishable = record {
  store_name = refl;
  source_url = refl;
  scrape_run_id = refl;
  payload_hash = refl;
  title = refl;
  in_stock = refl;
  identity_key = refl;
  few_images = omega arith;
  image_urls = (refl, (refl, tt));
}

config-IsConfigured : IsConfigured config
unfolding is_non_empty strip_start strip_end is_space
config-IsConfigured = record {
  exchange_name = refl;
  queue_name = refl;
  routing_key = refl;
  publisher_service = refl;
}

id_given : is_non_empty "e1" ≡ true
unfolding is_non_empty strip_start strip_end is_space
id_given = refl

delivered_passes_example :
    (m : ClaimedOutboxMessage) × (decode_rows ext (phone_row pending none none ∷ [])
      ≡ some (m ∷ []))
    × (contract_errors split_site (build_delivery_event config m 2000000) ≡ [])
unfolding build_scraper_product_event
delivered_passes_example =
    delivered_passes split_site settings config phone target "e1" 1000000 2000000 ext
      (phone_row pending none none) refl refl phone-IsPublishable config-IsConfigured refl refl
      id_given

normalize_image_urls-IsCollected_example : IsCollected split_site (
    normalize_image_urls split_site
      ("https://mediapark.uz/a.jpg" ∷ " https://mediapark.uz/a.jpg" ∷ "" ∷ []))
normalize_image_urls-IsCollected_example =
    normalize_image_urls-IsCollected split_site
      ("https://mediapark.uz/a.jpg" ∷ " https://mediapark.uz/a.jpg" ∷ "" ∷ [])
