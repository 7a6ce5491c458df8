-- ===== src/Reconcile.antt =====
-- What becomes of a success that does not say enough: application/lifecycle/reconciliation.py, with
-- the types of domain/crm_replay.py.
pub mod Laws
use doxx.Base.{
  String, Bool, true, false, ◌||◌, ◌&&◌, Option, none, some, List, [], ◌∷◌, ◌++◌, ◌=s=◌,
  if◌then◌else◌,
}
use doxx.Lifecycle.{clean_id, given}
use doxx.Crm.{CrmApplyResult}

pub record Reconciling : Type 0 where
  pub enable_response_loss_reconciliation : Bool
  pub reconcile_on_missing_ids : Bool
  pub reconcile_on_ambiguous_result : Bool
  pub enable_runtime_reconciliation : Bool
  pub enable_catalog_find_reconciliation : Bool
  pub allow_safe_resend_product_found : Bool

pub data Via : Type 0 where
  no_way runtime_ids resend_product_found : Via

pub record ReconciliationDecision : Type 0 where
  pub should_reconcile : Bool
  pub reconcile_via : Via
  pub reason : Option String

pub data Source : Type 0 where
  response runtime catalog_find resend : Source

pub record ReconciliationResult : Type 0 where
  pub resolved : Bool
  pub crm_listing_id : Option String
  pub crm_product_id : Option String
  pub action : Option String
  pub source : Source
  pub notes : List String

abbrev pub is_signal : String → Option String → Bool
is_signal s none = false
is_signal s (some t) = t =s= s

abbrev pub decision : Via → String → ReconciliationDecision
decision via reason = record { should_reconcile = true; reconcile_via = via; reason = some reason }

abbrev pub no_decision : ReconciliationDecision
no_decision = record { should_reconcile = false; reconcile_via = no_way; reason = none }

module _ (settings : Reconciling) where
  -- No result is a response that was lost.
  unfoldable pub decide_reconciliation : Option CrmApplyResult → ReconciliationDecision
  decide_reconciliation none =
      if settings.enable_response_loss_reconciliation
      then decision resend_product_found "response_lost"
      else no_decision
  decide_reconciliation (some apply_result) =
      let sig = apply_result.parser_reconciliation_signal in
      if is_signal "missing_ids" sig && settings.reconcile_on_missing_ids
      then decision runtime_ids "success_missing_crm_ids"
      else if is_signal "ambiguous_action" sig && settings.reconcile_on_ambiguous_result
      then decision runtime_ids "ambiguous_sync_result"
      else if is_signal "response_lost" sig && settings.enable_response_loss_reconciliation
      then decision resend_product_found "response_lost"
      else no_decision

  abbrev pub unresolved : Source → String → ReconciliationResult
  unresolved source note = record {
    resolved = false;
    crm_listing_id = none;
    crm_product_id = none;
    action = none;
    source = source;
    notes = note ∷ [];
  }

  -- The result's own ids come first: the rest of the function, with the ids of the run.
  unfoldable pub reconcile_runtime : Option String × Option String → ReconciliationResult
  reconcile_runtime (listing, product) =
      let lid = clean_id listing in
      let pid = clean_id product in
      if settings.enable_runtime_reconciliation && (given lid || given pid)
      then record {
        resolved = true;
        crm_listing_id = lid;
        crm_product_id = pid;
        action = none;
        source = runtime;
        notes = "used_runtime_bridge" ∷ [];
      }
      else if settings.enable_catalog_find_reconciliation
      then unresolved catalog_find "catalog_find_enabled_but_not_implemented_in_parser_transport"
      else if settings.allow_safe_resend_product_found
      then unresolved resend "recommend_safe_resend_product_found_if_policy_allows"
      else unresolved response "unresolved"

  unfoldable pub reconcile_missing_ids :
      Option String × Option String → Option CrmApplyResult → ReconciliationResult
  reconcile_missing_ids ids none = reconcile_runtime ids
  reconcile_missing_ids ids (some apply_result) =
      if apply_result.success
        && (given apply_result.crm_listing_id || given apply_result.crm_product_id)
      then record {
        resolved = true;
        crm_listing_id = apply_result.crm_listing_id;
        crm_product_id = apply_result.crm_product_id;
        action = apply_result.action;
        source = response;
        notes = [];
      }
      else reconcile_runtime ids

  -- None of the notes before is "ambiguous_action", so none is dropped as a duplicate.
  unfoldable pub reconcile_after_ambiguous_response :
      Option String × Option String → ReconciliationResult
  reconcile_after_ambiguous_response ids =
      let base = reconcile_missing_ids ids none in
      record base { notes = base.notes ++ ("ambiguous_action" ∷ []) }
