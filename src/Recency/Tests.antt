-- ===== src/Recency/Tests.antt =====
-- An answer of the CRM for a new entity, and a key that is sent again.
use doxx.Base.{String, List, ℕ, ◌⊎◌, ◌≤◌, ◌≡◌, refl, true, false, none, some, [], ◌∷◌}
use doxx.Fingerprint.{is_blank, is_space, strip_start, strip_end}
use doxx.Recency.Bridge.{Config, Rows, empty_row}
use doxx.Crm.{CrmApplyResult, created}
use doxx.Recency.Crawl.Bounds.{Call, product_url, source_id, listing_stats}
use doxx.Recency.Registry.{should_skip}
use doxx.Recency.Delivered.{Delivery, registry_after, was_delivered, should_skip-refines}
use doxx.Recency.Journal.{Attempts, clean_key}

abbrev config : Config
config = record {
  mark_ignored_as_applied = false;
  skip_same_payload = true;
  max_in_memory_cache = 2;
}

abbrev answer : CrmApplyResult
answer = record {
  event_id = "e1";
  entity_key = "mediapark:1";
  payload_hash = "h1";
  success = true;
  status = created;
  action = some "created";
  crm_listing_id = some "17";
  crm_product_id = none;
  http_status = some 200;
  retryable = false;
  error_code = none;
  parser_reconciliation_signal = none;
}

abbrev two_rows : Rows
two_rows = ("uzum:1", empty_row) ∷ ("uzum:2", empty_row) ∷ []

abbrev one_sent : Attempts
one_sent = ("key", 1) ∷ []

key_given : is_blank (clean_key " key") ≡ false
unfolding clean_key strip_start strip_end is_space
key_given = refl

abbrev first : Delivery
first = record {
  entity_key = "mediapark:1";
  payload_hash = "h1";
  ids = (some "17", none);
  action = some "created";
}

abbrev second : Delivery
second = record first { payload_hash = "h2" }

abbrev two : ℕ
two = 2

should_skip-refines_example :
    (should_skip true "mediapark:1" "h1" (registry_after two (second ∷ first ∷ [])) ≡ true
      → was_delivered ("mediapark:1", "h1") (second ∷ first ∷ []) ≡ true)
    × ((two ≡ 0) ⊎ (two ≤ two)
        → should_skip true "mediapark:1" "h1" (registry_after two (second ∷ first ∷ []))
          ≡ was_delivered ("mediapark:1", "h1") (second ∷ first ∷ []))
should_skip-refines_example = should_skip-refines two "mediapark:1" "h1" (second ∷ first ∷ [])

abbrev join_colon : String → String → String
join_colon store id = "mediapark:1"

abbrev calls : List Call
calls =
    product_url "/a"
    ∷ product_url "/b"
    ∷ source_id "1"
    ∷ product_url "/c"
    ∷ listing_stats "/list" 3
    ∷ []
