-- ===== src/Crm/Classify.antt =====
-- From a response to the events' results: the classifier of one event and that of a batch, of
-- application/lifecycle/apply_result_classifier.py.
use doxx.Base.{
  ℕ, String, Bool, true, false, not, ◌&&◌, ◌||◌, Option, none, some, List, [], ◌∷◌, map, length,
  leb, ltb, is_empty, ◌==◌, ◌=s=◌, if◌then◌else◌,
}
use doxx.Batch.{SyncEvent}
use doxx.Crm.{CrmApplyResult, CrmBatchApplyResult, rejected, retryable_failure, transport_failure}
use doxx.Crm.Answers.{
  ResponseRow, Response, Answering, TextOps, is_retryable_http_status, or_value, extract_batch_rows,
  single_row, any_none, is_product_found, str_or_none, field_or_none, or_empty_text,
  is_business_rejection, row_looks_success, row_retryable_row, normalize_action, status_from_action,
  failure, missing_row_result, has_text,
}

-- What the classifier returns, or the exception with the batch that it carries.
pub data Classified : Type 0 where
  classified : CrmBatchApplyResult → Classified
  malformed_batch_response : CrmBatchApplyResult → Classified

module _ (py : TextOps) where
  -- `force_transport_failure`
  abbrev pub forced_failure : ℕ → SyncEvent → CrmApplyResult
  forced_failure http_status event =
      failure py event transport_failure http_status false (some "missing_item_result")

  -- An error of the whole request; 5xx is retryable anyway.
  abbrev pub http_failure : ℕ → SyncEvent → CrmApplyResult
  http_failure http_status event =
      let can_retry = is_retryable_http_status http_status in
      failure py event (if can_retry then retryable_failure else rejected) http_status can_retry
        (some (py.str_int http_status))

  abbrev pub batch_of : List CrmApplyResult → Bool → ℕ → Option String → CrmBatchApplyResult
  batch_of items transport_ok http_status code = record {
    items = items;
    transport_ok = transport_ok;
    http_status = some http_status;
    batch_error_code = field_or_none py code;
  }

module _ (py : TextOps) (settings : Answering) where
  unfoldable pub parser_signal : SyncEvent → ResponseRow → Bool → Option String → Option String
  parser_signal event row success action =
      let has_l = has_text py (or_value row.crm_listing_id row.listing_id) in
      let has_p = has_text py (or_value row.crm_product_id row.product_id) in
      let act_l = py.str_lower (or_empty_text action) in
      if not success
      then none
      else if is_product_found event.event_type
          && not has_l
          && not has_p
          && settings.reconcile_on_missing_ids
      then some "missing_ids"
      else if (act_l =s= "needs_review") && settings.reconcile_on_ambiguous_result
      then some "ambiguous_action"
      else none

  -- `row` is an object; the first branch is the row that looks like a success.
  unfoldable pub present_row_result : SyncEvent → ℕ → ResponseRow → CrmApplyResult
  present_row_result event http_status row =
      let action = normalize_action py row.action in
      let act_l = py.str_lower (or_empty_text action) in
      let ok = row_looks_success py row in
      let code = str_or_none py row.error_code in
      let success = ok && not ((act_l =s= "ignored") && not settings.mark_ignored_as_applied) in
      let can_retry = not ok && row_retryable_row py row http_status in
      let refused = is_business_rejection py http_status code in
      let st =
        if ok
        then status_from_action py action true
        else if can_retry
        then retryable_failure
        else if leb 400 http_status && not refused
        then transport_failure
        else rejected in
      record {
        event_id = py.field event.event_id;
        entity_key = py.field event.entity_key;
        payload_hash = py.field event.payload_hash;
        success = success;
        status = st;
        http_status = some http_status;
        action = field_or_none py action;
        crm_listing_id =
            field_or_none py (str_or_none py (or_value row.crm_listing_id row.listing_id));
        crm_product_id =
            field_or_none py (str_or_none py (or_value row.crm_product_id row.product_id));
        retryable = can_retry;
        error_code = field_or_none py code;
        parser_reconciliation_signal = parser_signal event row success action;
      }

  unfoldable pub row_to_apply_result : SyncEvent → ℕ → Option ResponseRow → CrmApplyResult
  row_to_apply_result event http_status none = missing_row_result py event http_status
  row_to_apply_result event http_status (some row) = present_row_result event http_status row

  unfoldable pub classify_single_sync_response : SyncEvent → ℕ → Response → CrmApplyResult
  classify_single_sync_response event http_status response_json =
      if leb 400 http_status
      then http_failure py http_status event
      else row_to_apply_result event http_status (single_row response_json)

  -- `[_row_to_apply_result(events[i], http_status, rows[i]) for i in range(n)]`; there are as many
  -- rows as events.
  abbrev pub zip_rows : ℕ → List SyncEvent → List (Option ResponseRow) → List CrmApplyResult
  zip_rows http_status [] rows = []
  zip_rows http_status (e ∷ es) [] =
      row_to_apply_result e http_status none ∷ zip_rows http_status es []
  zip_rows http_status (e ∷ es) (r ∷ rows) =
      row_to_apply_result e http_status r ∷ zip_rows http_status es rows

  unfoldable pub classify_batch_sync_response : List SyncEvent → ℕ → Response → Classified
  classify_batch_sync_response events http_status response_json =
      let n = length events in
      let rows = extract_batch_rows response_json n in
      let malformed = not (length rows == n) || any_none rows in
      let synth =
        batch_of py (map (forced_failure py http_status) events) false http_status
          (some "malformed_batch_response") in
      if is_empty events
      then classified (batch_of py [] true http_status none)
      else if leb 400 http_status
      then classified (
          batch_of py (map (http_failure py http_status) events) false http_status
            (some (py.str_int http_status)))
      else if settings.require_item_results && malformed
      then if settings.stop_on_malformed_response
        then malformed_batch_response synth
        else classified synth
      else classified
          (batch_of py (zip_rows http_status events rows) (ltb http_status 400) http_status none)
