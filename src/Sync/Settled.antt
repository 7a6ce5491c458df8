-- ===== src/Sync/Settled.antt =====
-- Which classified answers count as synced: the classifier of apply_result_classifier.py, the
-- reconciliation of reconciliation.py and `_apply_item_result` of sync_pipeline.py together.
use doxx.Base.{
  ℕ, ◌+◌, ◌≡◌, refl, String, Bool, true, false, not, ◌&&◌, ◌||◌, Option, none, some, arith,
  if_cases, ◌=s=◌, ◌⊎◌, inl, inr, ◌∙◌, ap, if◌then◌else◌,
}
use doxx.Fingerprint.{is_blank, strip_start, strip_end}
use doxx.Batch.{SyncEvent}
use doxx.Crm.{CrmApplyResult}
use doxx.Crm.Answers.{
  Answering, ResponseRow, TextOps, Value, missing, truth, number, text, has_text, str_or_none,
  field_or_none, or_value, missing_row_result, is_product_found, or_empty_text,
}
use doxx.Crm.Classify.{parser_signal, present_row_result, row_to_apply_result}
use doxx.Lifecycle.{given}
use doxx.Recency.Bridge.{get_runtime_ids}
use doxx.Reconcile.{ReconciliationResult, is_signal}
use doxx.Reconcile.Laws.{any_id, own_id, reconcile_lem}
use doxx.Sync.{Settings, Pipeline, World}
use doxx.Sync.Items.{
  is_some, merge_reconciled, reconciliation, or_resend, reconcile_success_apply, settle_success,
  settle_failure, count_failure, apply_success, apply_item_result,
  maybe_enqueue_product_found_resend,
}

-- pydantic's stripping leaves nothing of a text of white space.
abbrev pub StripsBlank : TextOps → Type 0
StripsBlank py =
    (s : String) → is_blank (strip_end (strip_start s)) ≡ true → is_blank (py.field s) ≡ true

-- A signal for a reconciliation: none, an ambiguous answer, or an answer without an id of its own.
abbrev SignalFits : Bool → Option String → Type 0
SignalFits own sig =
    (sig ≡ none) ⊎ (sig ≡ some "ambiguous_action") ⊎ ((sig ≡ some "missing_ids") × (own ≡ false))

module _ (py : TextOps) (strips : StripsBlank py) where
  no_text-no_id :
      (v : Value) → has_text py v ≡ false → given (field_or_none py (str_or_none py v)) ≡ false
  no_text-no_id missing h = refl
  no_text-no_id (truth true) h = ground (arith, h, strips "True")
  no_text-no_id (truth false) h = ground (arith, h, strips "False")
  no_text-no_id (number n) h = ground (arith, h, strips (py.str_int n))
  no_text-no_id (text s) h = ground (arith, h, strips s)

  parser_signal-SignalFits :
      (answering : Answering) (e : SyncEvent) (row : ResponseRow) (success : Bool)
      (action : Option String)
      → let id = λ (v : Value). given (field_or_none py (str_or_none py v)) in
        SignalFits
          (success
            && (id (or_value row.crm_listing_id row.listing_id)
                || id (or_value row.crm_product_id row.product_id)))
          (parser_signal py answering e row success action)
  unfolding parser_signal
  parser_signal-SignalFits answering e row success action =
      let listing = or_value row.crm_listing_id row.listing_id in
      let product = or_value row.crm_product_id row.product_id in
      let id = λ (v : Value). given (field_or_none py (str_or_none py v)) in
      let Fits = SignalFits (success && (id listing || id product)) in
      if_cases Fits (not success) (λ t. inl refl)
        (λ f.
          if_cases Fits
            (is_product_found e.event_type
              && not (has_text py listing)
              && not (has_text py product)
              && answering.reconcile_on_missing_ids)
            (λ asks.
              let bare : has_text py listing ≡ false = ground (arith, asks) in
              let bare' : has_text py product ≡ false = ground (arith, asks) in
              inr (
                inr
                  (refl, ground (arith, no_text-no_id listing bare, no_text-no_id product bare'))))
            (λ f.
              if_cases Fits
                ((py.str_lower (or_empty_text action) =s= "needs_review")
                  && answering.reconcile_on_ambiguous_result)
                (λ t. inr (inl refl)) (λ f. inl refl)))

  row_to_apply_result-SignalFits :
      (answering : Answering) (e : SyncEvent) (http_status : ℕ) (row : Option ResponseRow)
      → let res = row_to_apply_result py answering e http_status row in
        SignalFits (own_id (some res)) res.parser_reconciliation_signal
  unfolding row_to_apply_result missing_row_result present_row_result
  row_to_apply_result-SignalFits answering e http_status none = inl refl
  row_to_apply_result-SignalFits answering e http_status (some row) =
      parser_signal-SignalFits answering e row _ _

abbrev is_settled : Option CrmApplyResult → Bool
is_settled none = false
is_settled (some res) = true

module _ (world : World) (settings : Settings) where
  -- The run may be asked, and knows an id of the entity.
  abbrev pub knows : SyncEvent → Pipeline → Bool
  knows e p =
      settings.reconciling.enable_runtime_reconciliation
      && any_id (get_runtime_ids e.entity_key p.identity_bridge)

  -- The answer needs no reconciliation, or the run can reconcile it.
  abbrev pub is_clear : SyncEvent → CrmApplyResult → Pipeline → Bool
  is_clear e res p = not (is_some world settings res.parser_reconciliation_signal) || knows e p

  merge_reconciled-resolved :
      (res : CrmApplyResult) (rec : ReconciliationResult)
      → rec.resolved ≡ (given rec.crm_listing_id || given rec.crm_product_id)
      → is_settled (merge_reconciled world settings res rec) ≡ rec.resolved
  unfolding merge_reconciled
  merge_reconciled-resolved res rec same = ground (arith, same)

  -- Where the answer's own ids are not to be had, the run alone reconciles.
  reconciliation-knows :
      (e : SyncEvent) (res : CrmApplyResult) (p : Pipeline)
      → (is_signal "ambiguous_action" res.parser_reconciliation_signal ≡ true)
        ⊎ (own_id (some res) ≡ false)
      → is_settled (merge_reconciled world settings res (reconciliation world settings e res p))
        ≡ knows e p
  reconciliation-knows e res p own =
      let ids = get_runtime_ids e.entity_key p.identity_bridge in
      let (by_ids, ambiguous) = reconcile_lem settings.reconciling ids (some res) in
      let rec = reconciliation world settings e res p in
      let ambiguity = is_signal "ambiguous_action" res.parser_reconciliation_signal in
      let IsKnown : ReconciliationResult → Type 0 =
        λ r. is_settled (merge_reconciled world settings res r) ≡ knows e p in
      if_cases IsKnown ambiguity (λ t. merge_reconciled-resolved res _ ambiguous.1 ∙ ambiguous.0)
        (λ f. merge_reconciled-resolved res _ by_ids.1 ∙ by_ids.0 ∙ elim own [
          | inl t ↦ absurd (ground (arith, t, f))
          | inr bare ↦ ap (λ b. b || knows e p) bare
        ])

  -- What becomes of a success: whether it is settled, and that nothing has been counted yet.
  abbrev Reconciles :
      SyncEvent → CrmApplyResult → Pipeline → Pipeline × Option CrmApplyResult → Type 0
  Reconciles e res p r = (is_settled r.1 ≡ is_clear e res p) × (r.0.metrics ≡ p.metrics)

  or_resend-metrics :
      (now : ℕ) (e : SyncEvent) (merged : Option CrmApplyResult) (p : Pipeline)
      → (is_settled (or_resend world settings now e merged p).1 ≡ is_settled merged)
        × ((or_resend world settings now e merged p).0.metrics ≡ p.metrics)
  unfolding maybe_enqueue_product_found_resend
  or_resend-metrics now e none p = (refl, ground arith)
  or_resend-metrics now e (some merged) p = (refl, refl)

  reconcile_success_apply-Reconciles :
      (now : ℕ) (e : SyncEvent) (res : CrmApplyResult) (p : Pipeline)
      → world.is_feature_enabled e ≡ true
      → SignalFits (own_id (some res)) res.parser_reconciliation_signal
      → Reconciles e res p (reconcile_success_apply world settings now e res p)
  unfolding reconcile_success_apply
  reconcile_success_apply-Reconciles now e res p feature fits =
      let sig = res.parser_reconciliation_signal in
      let merged = merge_reconciled world settings res (reconciliation world settings e res p) in
      let (same, counted) = or_resend-metrics now e merged p in
      let own : is_some world settings sig ≡ true
          → (is_signal "ambiguous_action" sig ≡ true) ⊎ (own_id (some res) ≡ false) =
        λ asked. elim fits [
          | inl e ↦ absurd (ground (arith, e, asked))
          | inr (inl e) ↦ inl (rw e refl)
          | inr (inr (e, bare)) ↦ inr bare
        ] in
      if_cases (Reconciles e res p) (not (is_some world settings sig))
        (λ quiet. (ground (arith, quiet), refl))
        (λ asks.
          let asked : is_some world settings sig ≡ true = ground (arith, asks) in
          if_cases (Reconciles e res p) (not (world.is_feature_enabled e))
            (λ off. absurd (ground (arith, off, feature)))
            (λ on.
              (same ∙ reconciliation-knows e res p (own asked) ∙ ground (arith, asked), counted)))

  abbrev count : Bool → ℕ
  count b = if b then 1 else 0

  settle_success-synced :
      (e : SyncEvent) (r : Pipeline × Option CrmApplyResult)
      → (settle_success world settings e r).metrics.items_synced
        ≡ r.0.metrics.items_synced + count (is_settled r.1)
  unfolding apply_success
  settle_success-synced e (p, none) = omega arith
  settle_success-synced e (p, some merged) = refl

  settle_failure-synced :
      (now : ℕ) (e : SyncEvent) (res : CrmApplyResult) (p : Pipeline)
      → (settle_failure world settings now e res p).metrics.items_synced ≡ p.metrics.items_synced
  unfolding settle_failure
  settle_failure-synced now e res p = ground arith

  apply_item_result-synced :
      (now : ℕ) (e : SyncEvent) (res : CrmApplyResult) (p : Pipeline)
      → world.is_feature_enabled e ≡ true
      → SignalFits (own_id (some res)) res.parser_reconciliation_signal
      → (apply_item_result world settings now e res p).metrics.items_synced
        ≡ p.metrics.items_synced + count (res.success && is_clear e res p)
  unfolding apply_item_result count_failure
  apply_item_result-synced now e res p feature fits =
      let r = reconcile_success_apply world settings now e res p in
      let (settled, counted) = reconcile_success_apply-Reconciles now e res p feature fits in
      let success = settle_success-synced e r in
      let failure = settle_failure-synced now e res (count_failure world settings res p) in
      if_cases
        (λ (q : Pipeline).
          q.metrics.items_synced ≡ p.metrics.items_synced + count (res.success && is_clear e res p))
        res.success (λ t. success ∙ ground (arith, settled, counted, t))
        (λ f. failure ∙ ground (arith, f))

-- What an answer of the classifier adds to the events that count as synced, where the feature is on
-- and pydantic strips a blank text to nothing: one, if it is a success that asks for no
-- reconciliation or for an entity of which the run knows an id and may be asked; and nothing
-- otherwise. The answer's own ids never settle a success that asks for a reconciliation.
pub synced_exactly :
    (py : TextOps) (answering : Answering) (world : World) (settings : Settings)
    → ((s : String) → is_blank (strip_end (strip_start s)) ≡ true → is_blank (py.field s) ≡ true)
    → (now : ℕ) (e : SyncEvent) (http_status : ℕ) (row : Option ResponseRow) (p : Pipeline)
    → world.is_feature_enabled e ≡ true
    → let res = row_to_apply_result py answering e http_status row in
      (apply_item_result world settings now e res p).metrics.items_synced
      ≡ p.metrics.items_synced + (if res.success && is_clear world settings e res p then 1 else 0)
synced_exactly py answering world settings strips now e http_status row p feature =
    apply_item_result-synced world settings now e _ p feature
      (row_to_apply_result-SignalFits py strips answering e http_status row)
