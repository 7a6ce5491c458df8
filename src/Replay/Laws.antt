-- ===== src/Replay/Laws.antt =====
-- Which event the builder makes of what the policy has chosen.
use doxx.Base.{
  ◌≡◌, ◌≢◌, inl, inr, refl, String, Bool, true, false, not, ◌&&◌, ◌||◌, Option, none, some,
  if◌then◌else◌, arith, Bool-cases,
}
use mathlib.Core.Path.{subst}
use doxx.Lifecycle.{
  EventType, product_found, price_changed, out_of_stock, characteristic_added, Policy,
  choose_lifecycle_event_type,
}
use doxx.Lifecycle.Safety.{MaySend, choose_lifecycle_event_type_lem}
use doxx.Replay.{
  IdempotencyScope, entity_payload, entity_only, event_only, ReplaySettings, RuntimeIds, KeyOps,
  LifecycleEvent, is_delta, is_reconcile_only, has_listing, parse_replay_mode,
  parse_idempotency_scope, build_request_idempotency_key, is_replay_safe_event_type,
  should_downgrade_replay_to_product_found, should_downgrade_delta_event_to_product_found, decide,
  choose_replay_mode, build_for, identity_of, build_lifecycle_event,
}

abbrev pub is_characteristic_added : EventType → Bool
is_characteristic_added characteristic_added = true
is_characteristic_added _ = false

module _ (py : KeyOps) (settings : ReplaySettings) where
  key_total :
      (entity_key payload_hash : String) (et : EventType) (scope : IdempotencyScope)
      → scope ≢ event_only
      → (key : String) × (build_request_idempotency_key py settings entity_key payload_hash et scope
          ≡ some key)
  unfolding build_request_idempotency_key
  key_total entity_key payload_hash et entity_payload other = (_, refl)
  key_total entity_key payload_hash et entity_only other = (_, refl)
  key_total entity_key payload_hash et event_only other = elim (other refl) [ ]

  replay_total :
      (entity_key payload_hash : String) (et : EventType) (ids : RuntimeIds)
      → parse_idempotency_scope py settings ≢ event_only
      → (key : String) × (choose_replay_mode py settings entity_key payload_hash et ids
          ≡ some (decide py settings et ids key))
  unfolding choose_replay_mode
  replay_total entity_key payload_hash et ids other =
      let (key, same) =
        key_total entity_key payload_hash et (parse_idempotency_scope py settings) other in
      (key, rw same refl)

  -- A delta is dropped that has no listing's id, unless deltas are safe to resend and the mode is not
  -- the one for reconciliations alone.
  abbrev pub is_dropped : EventType → RuntimeIds → Bool
  is_dropped et ids =
      is_delta et
      && not (has_listing ids)
      && (not settings.allow_safe_resend_delta_events
          || is_reconcile_only (parse_replay_mode py settings))

  downgrade_lem :
      (et : EventType) (ids : RuntimeIds) (key : String)
      → should_downgrade_delta_event_to_product_found py settings et ids
          (decide py settings et ids key).replay_mode
        ≡ is_dropped et ids
  unfolding should_downgrade_delta_event_to_product_found should_downgrade_replay_to_product_found
      is_replay_safe_event_type
  downgrade_lem et ids key = ground arith

  -- The event that is built, and the type that was meant where it is another one.
  abbrev pub IsBuilt : Option LifecycleEvent → EventType → Option EventType → Type 0
  IsBuilt event et original =
      (e : LifecycleEvent) × (event ≡ some e)
      × (e.event_type ≡ et)
      × (e.original_intent_event_type ≡ original)

  build_for_lem :
      (entity_key payload_hash : String) (et : EventType) (ids : RuntimeIds)
      → parse_idempotency_scope py settings ≢ event_only
      → IsBuilt
          (build_for py settings entity_key payload_hash et ids)
          (if is_dropped et ids then product_found else et)
          (if is_dropped et ids then some et else none)
  unfolding build_for
  build_for_lem entity_key payload_hash et ids other =
      let (key, chosen) = replay_total entity_key payload_hash et ids other in
      let (key', again) = replay_total entity_key payload_hash product_found ids other in
      elim (Bool-cases (is_dropped et ids)) [
        | inl dropped ↦ rw (chosen, downgrade_lem et ids key, dropped, again) (_, refl, refl, refl)
        | inr kept ↦ rw (chosen, downgrade_lem et ids key, kept) (_, refl, refl, refl)
      ]

  module _ (policy : Policy) where
    -- What the policy lets pass: with a listing's id every delta but one.
    passes :
        (et : EventType) (ids : RuntimeIds) (spec_update : Bool) (change_hint : String)
        → MaySend policy (identity_of py settings policy ids) spec_update change_hint et
        → is_dropped et ids ≡ (is_characteristic_added et && is_dropped et ids)
    unfolding has_listing
    passes product_found ids spec_update change_hint may = refl
    passes price_changed ids spec_update change_hint may = ground arith
    passes out_of_stock ids spec_update change_hint may = ground arith
    passes characteristic_added ids spec_update change_hint may = refl

    -- Unless the scope is `event_only`, an event is built. It is the one that the policy has chosen,
    -- except that `characteristic_added` becomes `product_found`, with the type that was meant noted,
    -- where there is no listing's id and deltas are not safe to resend or the mode is
    -- `reconcile_only`. A changed price or stock that the policy lets pass is never downgraded.
    pub build_lifecycle_event_lem :
        (rollout : Bool) (entity_key payload_hash : String) (ids : RuntimeIds) (spec_update : Bool)
        (change_hint : String) (requested : Option String)
        → parse_idempotency_scope py settings ≢ event_only
        → let (event, d) =
            build_lifecycle_event py settings policy rollout entity_key payload_hash ids spec_update
              change_hint requested in
          let chosen = d.selected_event_type in
          let dropped = is_characteristic_added chosen && is_dropped chosen ids in
          IsBuilt event
            (if dropped then product_found else chosen)
            (if dropped then some chosen else none)
    unfolding build_lifecycle_event
    build_lifecycle_event_lem rollout entity_key payload_hash ids spec_update change_hint requested
          other =
        let d =
          choose_lifecycle_event_type policy rollout (identity_of py settings policy ids)
            spec_update change_hint requested in
        let chosen = d.selected_event_type in
        let may =
          (choose_lifecycle_event_type_lem policy rollout (identity_of py settings policy ids)
            spec_update change_hint requested).4 in
        let same = passes chosen ids spec_update change_hint may in
        subst
          (λ b.
            IsBuilt (build_for py settings entity_key payload_hash chosen ids)
              (if b then product_found else chosen) (if b then some chosen else none))
          same (build_for_lem entity_key payload_hash chosen ids other)
