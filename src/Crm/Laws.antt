-- ===== src/Crm/Laws.antt =====
-- What the results of a batch say of its events.
use doxx.Base.{
  ℕ, ◌+◌, ◌≤◌, ◌≡◌, refl, Bool, true, false, not, ◌&&◌, ◌||◌, Option, none, some, List, [], ◌∷◌,
  map, arith, length, leb, ◌==◌, All, Bool-cases, inl, inr, String, ap,
}
use doxx.Batch.{SyncEvent}
use doxx.Crm.{
  CrmApplyStatus, CrmApplyResult, CrmBatchApplyResult, retryable_failure, is_accepted, is_rejected,
  count, summarize_batch_result,
}
use doxx.Crm.Answers.{
  ResponseRow, Response, no_json, rows, results, object, other_json, Answering, TextOps,
  extract_batch_rows, single_row, normalize_action, status_from_action, any_none,
  missing_row_result,
}
use doxx.Crm.Classify.{
  Classified, classified, malformed_batch_response, parser_signal, present_row_result,
  row_to_apply_result, forced_failure, http_failure, classify_single_sync_response, zip_rows,
  classify_batch_sync_response,
}

pub length-map {ℓ κ} :
    {A : Type ℓ} {B : Type κ} (f : A → B) (xs : List A) → length (map f xs) ≡ length xs
length-map f [] = refl
length-map f (x ∷ xs) = omega (arith, length-map f xs)

-- The batch that is returned, or that the exception carries.
abbrev pub batch_in : Classified → CrmBatchApplyResult
batch_in (classified batch) = batch
batch_in (malformed_batch_response batch) = batch

abbrev pub is_retryable : CrmApplyStatus → Bool
is_retryable retryable_failure = true
is_retryable _ = false

-- A result that agrees with itself: a success has an accepted status and is not retried, only a
-- success asks for reconciliation, and what is retried is what has the retryable status.
abbrev pub IsCoherent : CrmApplyResult → Type 0
IsCoherent r =
    (r.success ≡ true → (is_accepted r.status ≡ true) × (r.retryable ≡ false))
    × (r.success ≡ false → r.parser_reconciliation_signal ≡ none)
    × (r.retryable ≡ is_retryable r.status)

module _ (py : TextOps) where
  -- The keys that an event and its result share.
  abbrev pub key_of : SyncEvent → String × String × String
  key_of e = (py.field e.event_id, py.field e.entity_key, py.field e.payload_hash)

abbrev pub result_key : CrmApplyResult → String × String × String
result_key r = (r.event_id, r.entity_key, r.payload_hash)

module _ (py : TextOps) where
  status_from_action_lem :
      (action : Option String)
      → (is_accepted (status_from_action py action true) ≡ true)
        × (is_retryable (status_from_action py action true) ≡ false)
  unfolding status_from_action
  status_from_action_lem action = ground arith

  missing-IsCoherent :
      (e : SyncEvent) (http_status : ℕ) → IsCoherent (missing_row_result py e http_status)
  unfolding missing_row_result
  missing-IsCoherent e http_status = ground arith

  module _ (settings : Answering) where
    present-IsCoherent :
        (e : SyncEvent) (http_status : ℕ) (row : ResponseRow)
        → IsCoherent (present_row_result py settings e http_status row)
    unfolding present_row_result parser_signal
    present-IsCoherent e http_status row =
        let lem = status_from_action_lem (normalize_action py row.action) in ground (arith, lem)

  -- Results that are those of the events, in order, and coherent.
  abbrev pub Answers : List SyncEvent → List CrmApplyResult → Type 0
  Answers events items = (map result_key items ≡ map (key_of py) events) × All IsCoherent items

  map-Answers :
      (f : SyncEvent → CrmApplyResult)
      → ((e : SyncEvent) → (result_key (f e) ≡ key_of py e) × IsCoherent (f e))
      → (events : List SyncEvent) → Answers events (map f events)
  map-Answers f h [] = (refl, tt)
  map-Answers f h (e ∷ es) =
      let (keys, rest) = map-Answers f h es in rw (keys, (h e).0) (refl, ((h e).1, rest))

  pub http_failure-Answers :
      (http_status : ℕ) (es : List SyncEvent) → Answers es (map (http_failure py http_status) es)
  http_failure-Answers http_status =
      map-Answers (http_failure py http_status) (λ e. (refl, ground arith))

  forced_failure-Answers :
      (http_status : ℕ) (es : List SyncEvent) → Answers es (map (forced_failure py http_status) es)
  forced_failure-Answers http_status =
      map-Answers (forced_failure py http_status) (λ e. (refl, ground arith))

  module _ (settings : Answering) where
    pub row-key :
        (e : SyncEvent) (http_status : ℕ) (row : Option ResponseRow)
        → let r = row_to_apply_result py settings e http_status row in
          (result_key r ≡ key_of py e) × IsCoherent r
    unfolding row_to_apply_result missing_row_result present_row_result
    row-key e http_status none = (refl, missing-IsCoherent e http_status)
    row-key e http_status (some row) = (refl, present-IsCoherent settings e http_status row)

    zip_rows-Answers :
        (http_status : ℕ) (es : List SyncEvent) (given : List (Option ResponseRow))
        → Answers es (zip_rows py settings http_status es given)
    zip_rows-Answers http_status [] given = (refl, tt)
    zip_rows-Answers http_status (e ∷ es) [] =
        let (keys, rest) = zip_rows-Answers http_status es [] in
        let (key, coherent) = row-key e http_status none in rw (keys, key) (refl, (coherent, rest))
    zip_rows-Answers http_status (e ∷ es) (r ∷ given) =
        let (keys, rest) = zip_rows-Answers http_status es given in
        let (key, coherent) = row-key e http_status r in rw (keys, key) (refl, (coherent, rest))

    -- Whatever the CRM answers to a batch, the classifier gives each event its own result, in the
    -- events' order, whether it returns them or raises: a success has an accepted status and is not
    -- retryable, only a success asks for reconciliation, and an event is retryable exactly when its
    -- status says so.
    pub classify_batch_sync_response_lem :
        (events : List SyncEvent) (http_status : ℕ) (response_json : Response)
        → let batch =
            batch_in (classify_batch_sync_response py settings events http_status response_json) in
          (map result_key batch.items ≡ map (key_of py) events) × All IsCoherent batch.items
    unfolding classify_batch_sync_response
    classify_batch_sync_response_lem [] http_status response_json = (refl, tt)
    classify_batch_sync_response_lem (e ∷ es) http_status response_json =
        let given = extract_batch_rows response_json (length (e ∷ es)) in
        elim (Bool-cases (leb 400 http_status)) [
          | inl failed ↦ rw failed (http_failure-Answers http_status (e ∷ es))
          | inr fine ↦
              elim (Bool-cases (
                settings.require_item_results
                && (not (length given == length (e ∷ es)) || any_none given))) [
                  | inl bad ↦ elim (Bool-cases settings.stop_on_malformed_response) [
                    | inl stop ↦ rw (fine, bad, stop) (forced_failure-Answers http_status (e ∷ es))
                    | inr go_on ↦
                        rw (fine, bad, go_on) (forced_failure-Answers http_status (e ∷ es))
                  ]
                  | inr good ↦ rw (fine, good) (zip_rows-Answers http_status (e ∷ es) given)
                ]
        ]

    -- An event that is sent alone gets the result that it gets as a batch of one, unless the batch
    -- must hold a row and does not.
    pub batch_of_one :
        (event : SyncEvent) (http_status : ℕ) (response_json : Response)
        → settings.require_item_results ≡ false
        → let batch =
            batch_in
              (classify_batch_sync_response py settings (event ∷ []) http_status response_json) in
          batch.items
          ≡ classify_single_sync_response py settings event http_status response_json ∷ []
    unfolding classify_batch_sync_response classify_single_sync_response extract_batch_rows
        row_to_apply_result present_row_result parser_signal
    batch_of_one event http_status response_json optional =
        elim (Bool-cases (leb 400 http_status)) [
          | inl failed ↦ rw failed refl
          | inr fine ↦ rw (fine, optional) (one response_json)
        ]
      where
        one :
            (response_json : Response)
            → zip_rows py settings http_status (event ∷ []) (extract_batch_rows response_json 1)
              ≡ row_to_apply_result py settings event http_status (single_row response_json) ∷ []
        one no_json = refl
        one (rows []) = refl
        one (rows (r ∷ given)) = refl
        one (results []) = refl
        one (results (r ∷ given)) = refl
        one (object row) = refl
        one other_json = refl

-- The counts of a summary: what failed may be retried or is refused, never both.
count-split :
    (items : List CrmApplyResult)
    → All IsCoherent items
    → (count (λ i. i.success) items
          + count (λ i. not i.success && i.retryable) items
          + count (λ i. is_rejected i.status) items
        ≤ length items)
count-split [] h = omega arith
count-split (r ∷ items) h = ground (arith, count-split items h.1)

-- In the summary of a batch that the classifier made there are as many results as events, each is a
-- success or a failure, and those to be retried and those refused are different failures.
pub summarize-classify_batch_sync_response :
    (py : TextOps) (settings : Answering) (events : List SyncEvent) (http_status : ℕ)
    (response_json : Response)
    → let s =
        summarize_batch_result
          (batch_in (classify_batch_sync_response py settings events http_status response_json)) in
      (s.total ≡ length events)
      × (s.succeeded + s.failed ≡ length events)
      × (s.retryable_failed + s.rejected ≤ s.failed)
unfolding summarize_batch_result
summarize-classify_batch_sync_response py settings events http_status response_json =
    let batch =
      batch_in (classify_batch_sync_response py settings events http_status response_json) in
    let (keys, coherent) =
      classify_batch_sync_response_lem py settings events http_status response_json in
    let same : length batch.items ≡ length events =
      omega
        (arith, length-map result_key batch.items, length-map (key_of py) events, ap length keys) in
    (
      same,
      omega (arith, same, count-split batch.items coherent),
      omega (arith, count-split batch.items coherent),
    )
