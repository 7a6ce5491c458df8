-- ===== src/Crm.antt =====
-- The answers of the CRM: the types of domain/crm_apply_result.py and their summary. `Answers` and
-- `Classify` are application/lifecycle/apply_result_classifier.py, which makes them of a response.
pub mod Answers
pub mod Classify
pub mod Laws
pub mod Tests
use doxx.Base.{ℕ, ◌-◌, String, Bool, true, false, not, ◌&&◌, Option, List, length, filter}

pub data CrmApplyStatus : Type 0 where
  applied matched created updated ignored rejected retryable_failure transport_failure :
      CrmApplyStatus

-- Without the error's message, which is only reported.
pub record CrmApplyResult : Type 0 where
  pub event_id : String
  pub entity_key : String
  pub payload_hash : String
  pub success : Bool
  pub status : CrmApplyStatus
  pub http_status : Option ℕ
  pub action : Option String
  pub crm_listing_id : Option String
  pub crm_product_id : Option String
  pub retryable : Bool
  pub error_code : Option String
  pub parser_reconciliation_signal : Option String

pub record CrmBatchApplyResult : Type 0 where
  pub items : List CrmApplyResult
  pub transport_ok : Bool
  pub http_status : Option ℕ
  pub batch_error_code : Option String

pub record CrmBatchSummary : Type 0 where
  pub total : ℕ
  pub succeeded : ℕ
  pub failed : ℕ
  pub retryable_failed : ℕ
  pub rejected : ℕ
  pub ignored : ℕ

abbrev pub is_rejected : CrmApplyStatus → Bool
is_rejected rejected = true
is_rejected _ = false

abbrev pub is_ignored : CrmApplyStatus → Bool
is_ignored ignored = true
is_ignored _ = false

-- What the identity bridge accepts of a success.
abbrev pub is_accepted : CrmApplyStatus → Bool
is_accepted rejected = false
is_accepted retryable_failure = false
is_accepted transport_failure = false
is_accepted _ = true

-- `sum(1 for i in items if p(i))`
abbrev pub count : (CrmApplyResult → Bool) → List CrmApplyResult → ℕ
count p items = length (filter p items)

unfoldable pub summarize_batch_result : CrmBatchApplyResult → CrmBatchSummary
summarize_batch_result batch =
    let items = batch.items in
    let total = length items in
    let succeeded = count (λ i. i.success) items in
    record {
      total = total;
      succeeded = succeeded;
      failed = total - succeeded;
      retryable_failed = count (λ i. not i.success && i.retryable) items;
      rejected = count (λ i. is_rejected i.status) items;
      ignored = count (λ i. is_ignored i.status) items;
    }
