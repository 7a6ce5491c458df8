-- ===== src/Crm/Tests.antt =====
-- A batch of two events whose second result is an error that can be tried again.
use doxx.Base.{◌≡◌, true, false, some, List, [], ◌∷◌, map, All}
use doxx.Fingerprint.{strip_start, strip_end}
use doxx.Lifecycle.{product_found}
use doxx.Batch.{SyncEvent}
use doxx.Crm.Answers.{TextOps, Answering, ResponseRow, Response, rows, missing, truth, text, number}
use doxx.Crm.Classify.{classify_batch_sync_response}
use doxx.Crm.Laws.{batch_in, result_key, key_of, IsCoherent, classify_batch_sync_response_lem}

abbrev pub py : TextOps
py = record {
  str_lower = λ s. s;
  str_upper = λ s. s;
  str_int = λ n. "429";
  field = λ s. strip_end (strip_start s);
}

abbrev pub defaults : Answering
defaults = record {
  mark_ignored_as_applied = true;
  reconcile_on_missing_ids = true;
  reconcile_on_ambiguous_result = true;
  require_item_results = true;
  stop_on_malformed_response = true;
}

abbrev lenient : Answering
lenient = record defaults { require_item_results = false }

abbrev pub phone : SyncEvent
phone = record {
  event_id = "1";
  event_type = product_found;
  entity_key = "mediapark:1";
  payload_hash = "h1";
}

abbrev pub laptop : SyncEvent
laptop = record {
  event_id = "2";
  event_type = product_found;
  entity_key = "mediapark:2";
  payload_hash = "h2";
}

abbrev ok_row : ResponseRow
ok_row = record {
  success = truth true;
  status = text "ok";
  retryable = missing;
  error_code = missing;
  crm_listing_id = missing;
  listing_id = text "17";
  crm_product_id = missing;
  product_id = missing;
  action = text "created";
}

abbrev busy_row : ResponseRow
busy_row = record {
  success = truth false;
  status = number 503;
  retryable = missing;
  error_code = text "TIMEOUT";
  crm_listing_id = missing;
  listing_id = missing;
  crm_product_id = missing;
  product_id = missing;
  action = missing;
}

abbrev pub two_events : List SyncEvent
two_events = phone ∷ laptop ∷ []

abbrev pub answer : Response
answer = rows (some ok_row ∷ some busy_row ∷ [])

classify_batch_sync_response_lem_example :
    (map result_key
        (batch_in (classify_batch_sync_response py defaults two_events 200 answer)).items
      ≡ map (key_of py) two_events)
    × All IsCoherent
        (batch_in (classify_batch_sync_response py defaults two_events 200 answer)).items
classify_batch_sync_response_lem_example =
    classify_batch_sync_response_lem py defaults two_events 200 answer
