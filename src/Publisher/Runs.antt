-- ===== src/Publisher/Runs.antt =====
-- A whole run of the worker: `run_once` of publication_worker.py.
use doxx.Base.{
  ℕ, ◌+◌, ◌≡◌, refl, ◌≢◌, Bool, true, false, Option, none, some, List, [], ◌∷◌, arith, String,
  length, filter, Option-cases, inl, inr, All, All-map_mono, Pairwise, Ensures, if◌then◌else◌,
}
use mathlib.Core.Path.{subst, sym}
use doxx.Store.Rows.{Db}
use doxx.Store.Env.{Externals, Settings}
use doxx.Store.Outbox.{ClaimedOutboxMessage, has_claimable_outbox_rows, claim_outbox_batch}
use doxx.Store.Valid.{IsValid}
use doxx.Store.Valid.Marks.{mark_outbox_published-IsValid, mark_outbox_failed-IsValid}
use doxx.Publisher.{
  PublisherServiceConfig, PublicationRunResult, Failure, World, Loop, publish_message,
  publish_messages, run_claimed, run_once, build_delivery_event,
}
use doxx.Publisher.Settling.{
  IsSettled, Marks, mark_outbox_published-Marks, mark_outbox_failed-Marks,
}
use doxx.Publisher.Claimed.{HasRow, OtherEvent, claim-IsBatch}

abbrev is_accepted : Option Failure → Bool
is_accepted none = true
is_accepted (some failure) = false

-- Whether the broker accepts a message whose event is built at a reading of the clock.
abbrev pub accepts : PublisherServiceConfig → World → ClaimedOutboxMessage → ℕ → Bool
accepts cfg world m reading =
    is_accepted (world.publish (build_delivery_event cfg m (world.clock reading)))

-- The messages with the broker's answer to each: the clock is read once for a message that is
-- accepted, and twice for another.
abbrev pub outcomes :
    PublisherServiceConfig
    → World
    → List ClaimedOutboxMessage
    → ℕ
    → List (ClaimedOutboxMessage × Bool)
outcomes cfg world [] reading = []
outcomes cfg world (m ∷ ms) reading =
    let ok = accepts cfg world m reading in
    (m, ok) ∷ outcomes cfg world ms (reading + (if ok then 1 else 2))

-- How many messages the broker accepted.
abbrev pub count_accepted : List (ClaimedOutboxMessage × Bool) → ℕ
count_accepted os = length (filter (λ o. o.1) os)

module _ (settings : Settings) (ext : Externals) (cfg : PublisherServiceConfig)
    (world : World) where
  -- One round: the mark by the outcome, the counters, the readings and the invariant.
  record Rounds (ok : Bool) (m : ClaimedOutboxMessage) (s s' : Loop) : Type 0 where
    marks : Marks ok m.event_id s.db s'.db
    valid : IsValid s'.db
    readings : s'.readings ≡ s.readings + (if ok then 1 else 2)
    published : s'.published ≡ s.published + (if ok then 1 else 0)
    counted : s'.published + s'.failed ≡ s.published + s.failed + 1

  publish_message-Rounds :
      (m : ClaimedOutboxMessage) (s : Loop)
      → IsValid s.db
      → Rounds
          (is_accepted (world.publish (build_delivery_event cfg m (world.clock s.readings))))
          m
          s
          (publish_message settings ext cfg world m s)
  unfolding publish_message
  publish_message-Rounds m s valid =
      elim (Option-cases (world.publish (build_delivery_event cfg m (world.clock s.readings)))) [
        | inl e ↦
            rw (e, publish_message)
              (record {
                marks =
                    mark_outbox_published-Marks ext m.event_id cfg.publisher_service_name _ _ s.db
                      valid;
                valid =
                    mark_outbox_published-IsValid ext m.event_id cfg.publisher_service_name _ _ s.db
                      valid;
                readings = refl;
                published = refl;
                counted = omega arith;
              })
        | inr (failure, e) ↦
            rw (e, publish_message)
              (record {
                marks =
                    mark_outbox_failed-Marks settings m.event_id cfg.publisher_service_name _ _ _ _
                      _ s.db valid;
                valid =
                    mark_outbox_failed-IsValid settings m.event_id cfg.publisher_service_name _ _ _
                      _ _ s.db valid;
                readings = refl;
                published = omega arith;
                counted = omega arith;
              })
      ]

  publish_messages-keeps :
      (ms : List ClaimedOutboxMessage) (s : Loop) (ok : Bool) (j : String)
      → IsValid s.db
      → All (λ m. m.event_id ≢ j) ms
      → IsSettled ok j s.db
      → IsSettled ok j (publish_messages settings ext cfg world ms s).db
  unfolding publish_messages
  publish_messages-keeps [] s ok j valid others h = h
  publish_messages-keeps (m ∷ ms) s ok j valid others h =
      let round = publish_message-Rounds m s valid in
      publish_messages-keeps ms (publish_message settings ext cfg world m s) ok j round.valid
        others.1 (round.marks.keeps ok j (λ e. others.0 (sym e)) h)

  abbrev Outcome : Db → ClaimedOutboxMessage × Bool → Type 0
  Outcome db o = IsSettled o.1 o.0.event_id db

  publish_messages-IsSettled :
      (ms : List ClaimedOutboxMessage) (s : Loop) (reading : ℕ)
      → s.readings ≡ reading
      → IsValid s.db
      → All (HasRow s.db) ms
      → Pairwise OtherEvent ms
      → All
          (Outcome (publish_messages settings ext cfg world ms s).db)
          (outcomes cfg world ms reading)
  unfolding publish_messages
  publish_messages-IsSettled [] s reading now valid rows others = tt
  publish_messages-IsSettled (m ∷ ms) s reading now valid rows others =
      let round = publish_message-Rounds m s valid in
      let s' = publish_message settings ext cfg world m s in
      let ok = accepts cfg world m s.readings in
      subst
        (λ k.
          All (Outcome (publish_messages settings ext cfg world ms s').db)
            (outcomes cfg world (m ∷ ms) k))
        now
        (
          publish_messages-keeps ms s' ok m.event_id round.valid others.0
              (round.marks.settles rows.0),
          publish_messages-IsSettled ms s' (s.readings + (if ok then 1 else 2)) round.readings
              round.valid
              (All-map_mono (HasRow s.db) (HasRow s'.db) (λ n k. round.marks.stays n.event_id k) ms
                rows.1)
              others.1,
        )

  publish_messages-counts :
      (ms : List ClaimedOutboxMessage) (s : Loop) (reading : ℕ)
      → s.readings ≡ reading
      → IsValid s.db
      → let s' = publish_messages settings ext cfg world ms s in
        (s'.published ≡ s.published + count_accepted (outcomes cfg world ms reading))
        × (s'.published + s'.failed ≡ s.published + s.failed + length ms)
  unfolding publish_messages
  publish_messages-counts [] s reading now valid = (omega arith, omega arith)
  publish_messages-counts (m ∷ ms) s reading now valid =
      let round = publish_message-Rounds m s valid in
      let s' = publish_message settings ext cfg world m s in
      let ok = accepts cfg world m s.readings in
      let s'' = publish_messages settings ext cfg world ms s' in
      let (published, counted) =
        publish_messages-counts ms s' (s.readings + (if ok then 1 else 2)) round.readings
          round.valid in
      let first = round.published in
      let one = round.counted in
      subst
        (λ k.
          (s''.published ≡ s.published + count_accepted (outcomes cfg world (m ∷ ms) k))
          × (s''.published + s''.failed ≡ s.published + s.failed + length (m ∷ ms)))
        now (ground (arith, first, published), omega (arith, one, counted))

-- When the store is valid, rows are ready, the broker is reached and every claimed payload
-- validates, the run returns. It counts as published the messages that the broker accepted and as
-- failed the others, and then the row of each message shows the broker's answer: published if it
-- was accepted, retryable or failed if not, and both columns of the lease empty.
pub run_once_settles :
    (settings : Settings) (ext : Externals) (cfg : PublisherServiceConfig) (world : World) (db : Db)
    {ms : List ClaimedOutboxMessage} {db1 : Db}
    → IsValid db
    → has_claimable_outbox_rows (world.clock 0) db ≡ true
    → world.connect ≡ true
    → claim_outbox_batch ext cfg.batch_size cfg.publisher_service_name cfg.lease_seconds
        (world.clock 1)
        db
      ≡ (some ms, db1)
    → (result : PublicationRunResult) × (db2 : Db) × (run_once settings ext cfg world db
        ≡ (some result, db2))
      × (result.claimed ≡ length ms)
      × (result.published ≡ count_accepted (outcomes cfg world ms 2))
      × (result.published + result.failed ≡ length ms)
      × All (λ o. IsSettled o.1 o.0.event_id db2) (outcomes cfg world ms 2)
unfolding run_once run_claimed
run_once_settles settings ext cfg world db {ms} {db1} valid ready up claimed =
    let start : Loop = record { published = 0; failed = 0; db = db1; readings = 2 } in
    let s = publish_messages settings ext cfg world ms start in
    let (valid', rows, others) =
      subst
        (λ (r : Option (List ClaimedOutboxMessage) × Db).
          IsValid r.1 × Ensures (All (HasRow r.1)) r.0 × Ensures (Pairwise OtherEvent) r.0)
        claimed
        (claim-IsBatch ext cfg.batch_size cfg.publisher_service_name cfg.lease_seconds
          (world.clock 1) db valid) in
    let (published, counted) =
      publish_messages-counts settings ext cfg world ms start 2 refl valid' in
    (
      record { claimed = length ms; published = s.published; failed = s.failed },
      s.db,
      rw (ready, up, claimed, run_once),
      refl,
      omega (arith, published),
      omega (arith, counted),
      publish_messages-IsSettled settings ext cfg world ms start 2 refl valid' rows others,
    )
