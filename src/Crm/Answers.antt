-- ===== src/Crm/Answers.antt =====
-- The classifier of the CRM's responses: application/lifecycle/apply_result_classifier.py.
use doxx.Base.{
  ℕ, zero, suc, ◌-◌, String, Bool, true, false, not, ◌&&◌, ◌||◌, Option, none, some, List, [], ◌∷◌,
  ◌++◌, length, take, ltb, leb, ◌==◌, ◌=s=◌, if◌then◌else◌,
}
use doxx.Fingerprint.{is_blank, strip_start, strip_end}
use doxx.Lifecycle.{EventType, product_found}
use doxx.Batch.{SyncEvent}
use doxx.Crm.{
  CrmApplyStatus, CrmApplyResult, applied, matched, created, updated, ignored, rejected,
  retryable_failure, transport_failure,
}

-- A value of a row. `missing` is a key that is not there, or `null`; the numbers are the natural ones.
pub data Value : Type 0 where
  missing : Value
  truth : Bool → Value
  number : ℕ → Value
  text : String → Value

-- What the classifier reads of a row.
pub record ResponseRow : Type 0 where
  pub success : Value
  pub status : Value
  pub retryable : Value
  pub error_code : Value
  pub crm_listing_id : Value
  pub listing_id : Value
  pub crm_product_id : Value
  pub product_id : Value
  pub action : Value

-- A response's JSON: a list, an object with or without a list `results`, or anything else. An entry
-- of a list that is not an object is `none`.
pub data Response : Type 0 where
  no_json : Response
  rows : List (Option ResponseRow) → Response
  results : List (Option ResponseRow) → Response
  object : ResponseRow → Response
  other_json : Response

pub record Answering : Type 0 where
  pub mark_ignored_as_applied : Bool
  pub reconcile_on_missing_ids : Bool
  pub reconcile_on_ambiguous_result : Bool
  pub require_item_results : Bool
  pub stop_on_malformed_response : Bool

abbrev pub is_listed : String → List String → Bool
is_listed s [] = false
is_listed s (x ∷ xs) = s =s= x || is_listed s xs

unfoldable pub is_retryable_http_status : ℕ → Bool
is_retryable_http_status status = status == 429 || leb 500 status

abbrev pub is_true : Value → Bool
is_true (truth b) = b
is_true _ = false

-- Python's truth value
abbrev pub to_bool : Value → Bool
to_bool missing = false
to_bool (truth b) = b
to_bool (number n) = not (n == 0)
to_bool (text s) = not (is_blank s)

-- `a or b`
abbrev pub or_value : Value → Value → Value
or_value a b = if to_bool a then a else b

-- `[None] * n`
abbrev pub all_none : ℕ → List (Option ResponseRow)
all_none zero = []
all_none (suc n) = none ∷ all_none n

-- Exactly `n` rows: `none` for what is missing, and nothing of what is too much.
abbrev pub pad : ℕ → List (Option ResponseRow) → List (Option ResponseRow)
pad n given = take n (given ++ all_none (n - length given))

unfoldable pub extract_batch_rows : Response → ℕ → List (Option ResponseRow)
extract_batch_rows no_json n = all_none n
extract_batch_rows (rows given) n = pad n given
extract_batch_rows (results given) n = pad n given
extract_batch_rows (object row) n = if n == 1 then some row ∷ [] else all_none n
extract_batch_rows other_json n = all_none n

-- The first entry, if there is one and it is an object.
abbrev pub first_row : List (Option ResponseRow) → Option ResponseRow
first_row [] = none
first_row (r ∷ rest) = r

abbrev pub single_row : Response → Option ResponseRow
single_row no_json = none
single_row (rows given) = first_row given
single_row (results given) = first_row given
single_row (object row) = some row
single_row other_json = none

abbrev pub is_none : Option ResponseRow → Bool
is_none none = true
is_none (some row) = false

abbrev pub any_none : List (Option ResponseRow) → Bool
any_none [] = false
any_none (r ∷ rest) = is_none r || any_none rest

abbrev pub is_product_found : EventType → Bool
is_product_found product_found = true
is_product_found _ = false

abbrev pub or_empty_text : Option String → String
or_empty_text none = ""
or_empty_text (some s) = s

-- Python's `str.lower` and `str.upper`, `str` of an integer, and what pydantic makes of a text field.
pub record TextOps : Type 0 where
  pub str_lower : String → String
  pub str_upper : String → String
  pub str_int : ℕ → String
  pub field : String → String

module _ (py : TextOps) where
  abbrev pub str : Value → String
  str missing = "None"
  str (truth true) = "True"
  str (truth false) = "False"
  str (number n) = py.str_int n
  str (text s) = s

  -- `str(v) if v is not None else None`
  abbrev pub str_or_none : Value → Option String
  str_or_none missing = none
  str_or_none v = some (str v)

  abbrev pub field_or_none : Option String → Option String
  field_or_none none = none
  field_or_none (some s) = some (py.field s)

  unfoldable pub is_business_rejection : ℕ → Option String → Bool
  is_business_rejection status error_code =
      if status == 400 || status == 401 || status == 403 || status == 404 || status == 422
      then true
      else is_listed (py.str_upper (or_empty_text error_code))
          ("VALIDATION_ERROR" ∷ "REJECTED" ∷ "FORBIDDEN" ∷ "UNAUTHORIZED" ∷ [])

  abbrev pub is_ok_text : String → Bool
  is_ok_text s =
      is_listed (py.str_lower s)
        ("ok" ∷ "success" ∷ "synced" ∷ "created" ∷ "updated" ∷ "matched" ∷ "applied" ∷ [])

  abbrev pub is_ok_status : Value → Bool
  is_ok_status missing = false
  is_ok_status (truth b) = b
  is_ok_status (number n) = leb 200 n && ltb n 300
  is_ok_status (text s) = is_ok_text s

  unfoldable pub row_looks_success : ResponseRow → Bool
  row_looks_success row = is_true row.success || is_ok_status row.status

  unfoldable pub row_retryable_row : ResponseRow → ℕ → Bool
  row_retryable_row row http_status =
      let code = py.str_upper (str (or_value row.error_code (text ""))) in
      if is_true row.retryable
      then true
      else if is_listed code ("RATE_LIMIT" ∷ "SERVICE_UNAVAILABLE" ∷ "TIMEOUT" ∷ "TEMPORARY" ∷ [])
      then true
      else is_retryable_http_status http_status

  abbrev pub text_or_none : String → Option String
  text_or_none s = if is_blank s then none else some s

  unfoldable pub normalize_action : Value → Option String
  normalize_action missing = none
  normalize_action action = text_or_none (strip_end (strip_start (str action)))

  unfoldable pub status_from_action : Option String → Bool → CrmApplyStatus
  status_from_action action row_ok =
      let a = py.str_lower (or_empty_text action) in
      if not row_ok
      then rejected
      else if a =s= "created"
      then created
      else if (a =s= "matched") || (a =s= "needs_review")
      then matched
      else if a =s= "updated"
      then updated
      else if a =s= "ignored"
      then ignored
      else applied

  -- The identity of the event, and a failure without a row.
  abbrev pub failure : SyncEvent → CrmApplyStatus → ℕ → Bool → Option String → CrmApplyResult
  failure event st http_status can_retry code = record {
    event_id = py.field event.event_id;
    entity_key = py.field event.entity_key;
    payload_hash = py.field event.payload_hash;
    success = false;
    status = st;
    http_status = some http_status;
    action = none;
    crm_listing_id = none;
    crm_product_id = none;
    retryable = can_retry;
    error_code = field_or_none code;
    parser_reconciliation_signal = none;
  }

  -- `row is None`; what can be tried again has the status that says so.
  unfoldable pub missing_row_result : SyncEvent → ℕ → CrmApplyResult
  missing_row_result event http_status =
      let can_retry = is_retryable_http_status http_status in
      let refused = is_business_rejection http_status none in
      let code = if http_status == 0 then "http_error" else py.str_int http_status in
      let st =
        if can_retry
        then retryable_failure
        else if leb 400 http_status && refused
        then rejected
        else transport_failure in
      failure event st http_status can_retry (some code)

  -- `x is not None and str(x).strip() != ""`
  abbrev pub has_text : Value → Bool
  has_text missing = false
  has_text v = not (is_blank (strip_end (strip_start (str v))))
