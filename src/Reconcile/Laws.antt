-- ===== src/Reconcile/Laws.antt =====
-- When a reconciliation resolves, and when it recommends a resend.
use doxx.Base.{◌≡◌, String, Bool, true, false, not, ◌&&◌, ◌||◌, Option, none, some, arith}
use doxx.Lifecycle.{clean_id, given}
use doxx.Crm.{CrmApplyResult}
use doxx.Reconcile.{
  Reconciling, ReconciliationResult, Source, resend, reconcile_runtime, reconcile_missing_ids,
  reconcile_after_ambiguous_response,
}

abbrev pub Ids : Type 0
Ids = Option String × Option String

-- An id of the listing or of the product.
abbrev pub any_id : Ids → Bool
any_id (listing, product) = given (clean_id listing) || given (clean_id product)

abbrev pub own_id : Option CrmApplyResult → Bool
own_id none = false
own_id (some r) = r.success && (given r.crm_listing_id || given r.crm_product_id)

abbrev pub is_resend : Source → Bool
is_resend resend = true
is_resend _ = false

-- What both ways to reconcile promise of a result, given the ids of the run and those of the answer.
abbrev pub IsReconciled : Reconciling → Ids → Bool → ReconciliationResult → Type 0
IsReconciled settings ids own r =
    (r.resolved ≡ (own || settings.enable_runtime_reconciliation && any_id ids))
    × (r.resolved ≡ (given r.crm_listing_id || given r.crm_product_id))
    × (is_resend r.source ≡ (
        not r.resolved
        && not settings.enable_catalog_find_reconciliation
        && settings.allow_safe_resend_product_found))

reconcile_runtime_lem :
    (settings : Reconciling) (ids : Ids)
    → IsReconciled settings ids false (reconcile_runtime settings ids)
unfolding reconcile_runtime
reconcile_runtime_lem settings (listing, product) = ground arith

reconcile_missing_ids_lem :
    (settings : Reconciling) (ids : Ids) (res : Option CrmApplyResult)
    → IsReconciled settings ids (own_id res) (reconcile_missing_ids settings ids res)
unfolding reconcile_missing_ids
reconcile_missing_ids_lem settings ids none = reconcile_runtime_lem settings ids
reconcile_missing_ids_lem settings ids (some res) =
    let later = reconcile_runtime_lem settings ids in ground (arith, later)

-- For missing ids the ids of a successful answer count first, and then those of the run. After an
-- ambiguous answer only those of the run do.
pub reconcile_lem :
    (settings : Reconciling) (ids : Ids) (res : Option CrmApplyResult)
    → IsReconciled settings ids (own_id res) (reconcile_missing_ids settings ids res)
      × IsReconciled settings ids false (reconcile_after_ambiguous_response settings ids)
unfolding reconcile_after_ambiguous_response
reconcile_lem settings ids res =
    (reconcile_missing_ids_lem settings ids res, reconcile_missing_ids_lem settings ids none)
