-- ===== src/Recency/Bridge.antt =====
-- `RuntimeIdentityBridge` of infrastructure/sync/runtime_identity_bridge.py: what the CRM answered
-- for each entity in this run.
use doxx.Base.{
  ℕ, ◌≤◌, ◌≡◌, refl, String, Bool, true, false, not, ◌&&◌, Option, none, some, List, arith, length,
  ◌=s=◌, if◌then◌else◌, ◌∙◌,
}
use text.Mathlib.TextPositions.{eq_refl}
use doxx.Lifecycle.{clean_id, given}
use doxx.Crm.{CrmApplyResult, is_ignored, is_accepted}
use doxx.Recency.{get, put, trim}
use doxx.Recency.Laws.{put_trim_lem}

-- A dictionary of a row; a missing key is `none`.
pub record Row : Type 0 where
  pub crm_listing_id : Option String
  pub crm_product_id : Option String
  pub last_action : Option String
  pub last_successful_payload_hash : Option String

abbrev pub empty_row : Row
empty_row = record {
  crm_listing_id = none;
  crm_product_id = none;
  last_action = none;
  last_successful_payload_hash = none;
}

-- `a or b`
abbrev pub or_else : Option String → Option String → Option String
or_else a b = if given a then a else b

-- The settings: whether ignored counts as applied, whether equal payloads are skipped, and the
-- largest number of rows.
pub record Config : Type 0 where
  pub mark_ignored_as_applied : Bool
  pub skip_same_payload : Bool
  pub max_in_memory_cache : ℕ

unfoldable pub should_update_crm_ids_from_result : Config → CrmApplyResult → Bool
should_update_crm_ids_from_result cfg result =
    if not result.success
    then false
    else if is_ignored result.status && not cfg.mark_ignored_as_applied
    then false
    else is_accepted result.status

unfoldable pub should_mark_payload_applied : Config → CrmApplyResult → Bool
should_mark_payload_applied cfg result =
    if not result.success
    then false
    else if is_ignored result.status
    then cfg.mark_ignored_as_applied
    else true

abbrev pub Rows : Type 0
Rows = List (String × Row)

-- `self._rows.get(ek) or {}`
abbrev pub or_empty : Option Row → Row
or_empty none = empty_row
or_empty (some row) = row

unfoldable pub update_ids : Config → CrmApplyResult → Row → Row
update_ids cfg result prev =
    if should_update_crm_ids_from_result cfg result
    then record prev {
      crm_listing_id = or_else result.crm_listing_id prev.crm_listing_id;
      crm_product_id = or_else result.crm_product_id prev.crm_product_id;
      last_action = or_else result.action prev.last_action;
    }
    else prev

unfoldable pub update_payload : Config → CrmApplyResult → Row → Row
update_payload cfg result prev =
    if should_mark_payload_applied cfg result
    then record prev { last_successful_payload_hash = some result.payload_hash }
    else prev

unfoldable pub remember_apply_result : Config → CrmApplyResult → Rows → Rows
remember_apply_result cfg result rows =
    let prev = or_empty (get result.entity_key rows) in
    trim cfg.max_in_memory_cache
      (put result.entity_key (update_payload cfg result (update_ids cfg result prev)) rows)

unfoldable pub remember_sent_payload : Config → String → String → Rows → Rows
remember_sent_payload cfg entity_key payload_hash rows =
    let prev = or_empty (get entity_key rows) in
    trim cfg.max_in_memory_cache
      (put entity_key (record prev { last_successful_payload_hash = some payload_hash }) rows)

-- The listing's id and the product's.
unfoldable pub get_runtime_ids : String → Rows → Option String × Option String
get_runtime_ids entity_key rows =
    let row = or_empty (get entity_key rows) in
    (clean_id row.crm_listing_id, clean_id row.crm_product_id)

unfoldable pub get_last_successful_payload : String → Rows → Option String
get_last_successful_payload entity_key rows =
    (or_empty (get entity_key rows)).last_successful_payload_hash

abbrev pub same_hash : Option String → String → Bool
same_hash none hash = false
same_hash (some old) hash = old =s= hash

unfoldable pub should_skip_event : Config → String → String → Rows → Bool
should_skip_event cfg entity_key payload_hash rows =
    if not cfg.skip_same_payload
    then false
    else same_hash (get_last_successful_payload entity_key rows) payload_hash

updated_row_lem :
    (cfg : Config) (result : CrmApplyResult) (prev : Row)
    → let row = update_payload cfg result (update_ids cfg result prev) in
      let ids = should_update_crm_ids_from_result cfg result in
      (row.crm_listing_id
        ≡ (if ids then or_else result.crm_listing_id prev.crm_listing_id else prev.crm_listing_id))
      × (row.crm_product_id ≡ (
          if ids then or_else result.crm_product_id prev.crm_product_id else prev.crm_product_id))
      × (row.last_successful_payload_hash ≡ (
          if should_mark_payload_applied cfg result
          then some result.payload_hash
          else prev.last_successful_payload_hash))
unfolding update_ids update_payload
updated_row_lem cfg result prev = ground arith

-- What is read of an entity's row.
row_ids :
    (k : String) (rows : Rows) (row : Row)
    → get k rows ≡ some row
    → get_runtime_ids k rows ≡ (clean_id row.crm_listing_id, clean_id row.crm_product_id)
unfolding get_runtime_ids
row_ids k rows row found = rw (found, get_runtime_ids) refl

row_payload :
    (k : String) (rows : Rows) (row : Row)
    → get k rows ≡ some row
    → get_last_successful_payload k rows ≡ row.last_successful_payload_hash
unfolding get_last_successful_payload
row_payload k rows row found = rw (found, get_last_successful_payload) refl

skip_same :
    (cfg : Config) (k hash : String) (rows : Rows)
    → get_last_successful_payload k rows ≡ some hash
    → should_skip_event cfg k hash rows ≡ cfg.skip_same_payload
unfolding should_skip_event
skip_same cfg k hash rows sent =
    let same : same_hash (get_last_successful_payload k rows) hash ≡ true =
      rw sent (eq_refl hash) in
    ground (arith, same)

-- After an answer of the CRM: a positive limit on rows is kept; the entity's ids are the answer's
-- where it gives some and is one that updates ids, and otherwise as before; the payload is the
-- answer's where that counts as applied, and otherwise as before; and the same payload is then
-- skipped if it counts as applied and skipping is on.
pub remember_apply_result_lem :
    (cfg : Config) (result : CrmApplyResult) (rows : Rows)
    → let k = result.entity_key in
      let rows' = remember_apply_result cfg result rows in
      let prev = or_empty (get k rows) in
      let ids = should_update_crm_ids_from_result cfg result in
      let marks = should_mark_payload_applied cfg result in
      (1 ≤ cfg.max_in_memory_cache → length rows' ≤ cfg.max_in_memory_cache)
      × (get_runtime_ids k rows' ≡ (
        clean_id (
            if ids then or_else result.crm_listing_id prev.crm_listing_id else prev.crm_listing_id),
        clean_id (
            if ids then or_else result.crm_product_id prev.crm_product_id else prev.crm_product_id),
      ))
      × (get_last_successful_payload k rows'
          ≡ (if marks then some result.payload_hash else prev.last_successful_payload_hash))
      × (marks ≡ true → should_skip_event cfg k result.payload_hash rows' ≡ cfg.skip_same_payload)
unfolding remember_apply_result
remember_apply_result_lem cfg result rows =
    let k = result.entity_key in
    let prev = or_empty (get k rows) in
    let row = update_payload cfg result (update_ids cfg result prev) in
    let rows' = trim cfg.max_in_memory_cache (put k row rows) in
    let (found, bound) = put_trim_lem cfg.max_in_memory_cache k row rows in
    let (listing, product, payload) = updated_row_lem cfg result prev in
    let last = row_payload k rows' row found ∙ payload in
    (
      bound,
      row_ids k rows' row found ∙ rw (listing, product) refl,
      last,
      λ marked. skip_same cfg k result.payload_hash rows' (last ∙ rw marked refl),
    )
