-- ===== src/Lifecycle/Safety.antt =====
-- The choice is always an event that may be sent.
use doxx.Base.{
  ◌≡◌, refl, ◌↔◌, String, Bool, true, false, not, ◌&&◌, ◌||◌, Option, ◌=s=◌, if◌then◌else◌, arith,
  Bool-cases, inl, inr,
}
use doxx.Lifecycle.{
  EventType, product_found, price_changed, out_of_stock, characteristic_added, Policy,
  CrmIdentityContext, LifecycleDecision, given, runtime_deltas_enabled, needs_listing,
  needs_product, has_spec_change_signal, can_emit_event, requested_type, settle_probe, choose_for,
  choose_lifecycle_event_type,
}

-- The id and the signals that an event needs, with the settings that allow it.
abbrev pub MaySend : Policy → CrmIdentityContext → Bool → String → EventType → Type 0
MaySend settings identity spec_update change_hint product_found = Unit
MaySend settings identity spec_update change_hint price_changed =
    (settings.allow_price_changed_with_runtime_ids ≡ true) × (given identity.crm_listing_id ≡ true)
MaySend settings identity spec_update change_hint out_of_stock =
    (settings.allow_out_of_stock_with_runtime_ids ≡ true) × (given identity.crm_listing_id ≡ true)
MaySend settings identity spec_update change_hint characteristic_added =
    (settings.allow_characteristic_added_with_runtime_ids ≡ true)
    × (given identity.crm_product_id ≡ true)
    × ((spec_update || (change_hint =s= "spec_update")) ≡ true)

-- Events other than `product_found` need both settings for deltas on.
abbrev pub DeltasOn : Policy → EventType → Type 0
DeltasOn settings product_found = Unit
DeltasOn settings _ =
    (settings.enable_runtime_delta_events ≡ true) × (settings.enable_delta_events ≡ true)

-- `can_emit_event` answers for the event it was asked, and says yes exactly when the settings, the
-- ids and the signals allow the event.
pub can_emit_event_lem :
    (settings : Policy) (et : EventType) (identity : CrmIdentityContext) (spec_update : Bool)
    (change_hint : String)
    → let d = can_emit_event settings et identity spec_update change_hint in
      (d.selected_event_type ≡ et)
      × ((d.allowed ≡ true)
          ↔ (DeltasOn settings et × MaySend settings identity spec_update change_hint et))
unfolding can_emit_event needs_listing needs_product has_spec_change_signal runtime_deltas_enabled
can_emit_event_lem settings product_found identity spec_update change_hint = ground arith
can_emit_event_lem settings price_changed identity spec_update change_hint = ground arith
can_emit_event_lem settings out_of_stock identity spec_update change_hint = ground arith
can_emit_event_lem settings characteristic_added identity spec_update change_hint = ground arith

settle_probe_lem :
    (settings : Policy) (probe : LifecycleDecision)
    → let d = settle_probe settings probe in
      (d.allowed ≡ true)
      × (d.selected_event_type
          ≡ (if probe.allowed then probe.selected_event_type else product_found))
      × (d.fallback_applied ≡ not probe.allowed)
unfolding settle_probe
settle_probe_lem settings probe = ground arith

-- A choice that follows the probe's answer.
Follows : Policy → EventType → CrmIdentityContext → Bool → String → LifecycleDecision → Type 0
Follows settings requested identity spec_update change_hint d =
    let ok = (can_emit_event settings requested identity spec_update change_hint).allowed in
    (d.allowed ≡ true)
    × (d.selected_event_type ≡ (if ok then requested else product_found))
    × (d.fallback_applied ≡ not ok)
    × DeltasOn settings d.selected_event_type
    × MaySend settings identity spec_update change_hint d.selected_event_type

settle_probe-Follows :
    (settings : Policy) (requested : EventType) (identity : CrmIdentityContext) (spec_update : Bool)
    (change_hint : String)
    → Follows settings requested identity spec_update change_hint
        (settle_probe settings (can_emit_event settings requested identity spec_update change_hint))
unfolding Follows
settle_probe-Follows settings requested identity spec_update change_hint =
    let probe = can_emit_event settings requested identity spec_update change_hint in
    let (same, iff) = can_emit_event_lem settings requested identity spec_update change_hint in
    let (allowed, selected, fallback) = settle_probe_lem settings probe in
    elim (Bool-cases probe.allowed) [
      | inl ok ↦
          let (deltas, may) = iff.0 ok in
          let chosen : (settle_probe settings probe).selected_event_type ≡ requested =
            ground (arith, selected, same, ok) in
          (allowed, ground (arith, chosen, ok), fallback, rw chosen deltas, rw chosen may)
      | inr off ↦
          let chosen : (settle_probe settings probe).selected_event_type ≡ product_found =
            ground (arith, selected, off) in
          (allowed, ground (arith, chosen, off), fallback, rw chosen tt, rw chosen tt)
    ]

choose_for_lem :
    (settings : Policy) (requested : EventType) (identity : CrmIdentityContext) (spec_update : Bool)
    (change_hint : String)
    → Follows settings requested identity spec_update change_hint
        (choose_for settings requested identity spec_update change_hint)
unfolding choose_for Follows can_emit_event
choose_for_lem settings product_found identity spec_update change_hint = (refl, refl, refl, tt, tt)
choose_for_lem settings price_changed identity spec_update change_hint =
    settle_probe-Follows settings price_changed identity spec_update change_hint
choose_for_lem settings out_of_stock identity spec_update change_hint =
    settle_probe-Follows settings out_of_stock identity spec_update change_hint
choose_for_lem settings characteristic_added identity spec_update change_hint =
    settle_probe-Follows settings characteristic_added identity spec_update change_hint

-- What is chosen: the event that is asked for where the rollout has the feature and the event may
-- be sent, and `product_found` otherwise; a fallback is reported exactly when the feature is on and
-- the event may not be sent. The choice is always allowed, and its settings, ids and signals are
-- there.
pub choose_lifecycle_event_type_lem :
    (settings : Policy) (rollout : Bool) (identity : CrmIdentityContext) (spec_update : Bool)
    (change_hint : String) (asked : Option String)
    → let d = choose_lifecycle_event_type settings rollout identity spec_update change_hint asked in
      let requested = requested_type settings asked change_hint in
      let ok = (can_emit_event settings requested identity spec_update change_hint).allowed in
      (d.allowed ≡ true)
      × (d.selected_event_type ≡ (if rollout && ok then requested else product_found))
      × (d.fallback_applied ≡ (rollout && not ok))
      × DeltasOn settings d.selected_event_type
      × MaySend settings identity spec_update change_hint d.selected_event_type
unfolding choose_lifecycle_event_type Follows
choose_lifecycle_event_type_lem settings false identity spec_update change_hint asked =
    (refl, refl, refl, tt, tt)
choose_lifecycle_event_type_lem settings true identity spec_update change_hint asked =
    choose_for_lem settings (requested_type settings asked change_hint) identity spec_update
      change_hint
