-- ===== src/Publisher.antt =====
-- The publisher service: services/publisher/publication_worker.py and outbox_reader.py. It claims a
-- batch of the outbox, publishes each event to RabbitMQ, and marks each row by the outcome.
pub mod Settling
mod Claimed
pub mod Runs
mod Tests
use doxx.Base.{
  ℕ, suc, ◌+◌, String, Bool, true, false, Option, none, some, List, [], ◌∷◌, length, is_empty,
  if◌then◌else◌,
}
use doxx.Store.Rows.{Time, Status, published, Db, ScraperProductEvent}
use doxx.Store.Env.{Externals, Settings}
use doxx.Store.Outbox.{ClaimedOutboxMessage, has_claimable_outbox_rows, claim_outbox_batch}
use doxx.Store.Settle.{mark_outbox_published, mark_outbox_failed}

-- The fields of `PublisherServiceConfig` that the worker and the reader use.
pub record PublisherServiceConfig : Type 0 where
  pub exchange_name : String
  pub queue_name : String
  pub routing_key : String
  pub batch_size : ℕ
  pub lease_seconds : ℕ
  pub max_retries : ℕ
  pub retry_base_seconds : ℕ
  pub publisher_service_name : String

pub record PublicationRunResult : Type 0 where
  pub claimed : ℕ
  pub published : ℕ
  pub failed : ℕ

-- An exception raised while an event is published, by its class, with its text.
pub data Failure : Type 0 where
  type_error : String → Failure
  value_error : String → Failure
  other_error : String → Failure

abbrev pub failure_text : Failure → String
failure_text (type_error s) = s
failure_text (value_error s) = s
failure_text (other_error s) = s

-- `not isinstance(exc, (TypeError, ValueError))`
unfoldable pub is_retryable : Failure → Bool
is_retryable (type_error s) = false
is_retryable (value_error s) = false
is_retryable (other_error s) = true

-- What surrounds the worker: the clock, read again at each call, and the broker. `connect` says
-- whether a connection is made, and `publish` is `none` where the broker accepts the event.
pub record World : Type 0 where
  pub clock : ℕ → Time
  pub connect : Bool
  pub publish : ScraperProductEvent → Option Failure

unfoldable pub build_delivery_event :
    PublisherServiceConfig → ClaimedOutboxMessage → Time → ScraperProductEvent
build_delivery_event cfg message published_at =
    let event = message.payload in
    let publication = event.publication in
    record event {
      publication = record publication {
        exchange_name = some cfg.exchange_name;
        queue_name = some cfg.queue_name;
        routing_key = some cfg.routing_key;
        outbox_status = published;
        attempt_number = message.attempt_count + 1;
        publisher_service = some cfg.publisher_service_name;
        published_at = some published_at;
      };
    }

-- The loop's variables: the counters, the database, and the clock readings so far.
pub record Loop : Type 0 where
  pub published : ℕ
  pub failed : ℕ
  pub db : Db
  pub readings : ℕ

module _ (settings : Settings) (ext : Externals) (cfg : PublisherServiceConfig)
    (world : World) where
  -- One round of the loop over the claimed messages.
  unfoldable pub publish_message : ClaimedOutboxMessage → Loop → Loop
  publish_message message s =
      let event = build_delivery_event cfg message (world.clock s.readings) in
      elim (world.publish event) [
        | some failure ↦ record s {
          failed = s.failed + 1;
          db =
              mark_outbox_failed settings message.event_id cfg.publisher_service_name
                (failure_text failure) (is_retryable failure) (some cfg.max_retries)
                (some cfg.retry_base_seconds) (world.clock (s.readings + 1)) s.db;
          readings = s.readings + 2;
        }
        | none ↦ record s {
          published = s.published + 1;
          db =
              mark_outbox_published ext message.event_id cfg.publisher_service_name (some event)
                (world.clock s.readings) s.db;
          readings = s.readings + 1;
        }
      ]

  unfoldable pub publish_messages : List ClaimedOutboxMessage → Loop → Loop
  publish_messages [] s = s
  publish_messages (m ∷ ms) s = publish_messages ms (publish_message m s)

  -- The second half of `run_once`, from the claimed messages on; `none` is an exception, here a
  -- payload that does not validate.
  unfoldable pub run_claimed :
      Option (List ClaimedOutboxMessage) × Db → Option PublicationRunResult × Db
  run_claimed (none, db) = (none, db)
  run_claimed (some messages, db) =
      let s =
        publish_messages messages (record { published = 0; failed = 0; db = db; readings = 2 }) in
      (
        some (record { claimed = length messages; published = s.published; failed = s.failed }),
        s.db,
      )

  unfoldable pub run_once : Db → Option PublicationRunResult × Db
  run_once db =
      if has_claimable_outbox_rows (world.clock 0) db
      then if world.connect
        then run_claimed (
            claim_outbox_batch ext cfg.batch_size cfg.publisher_service_name cfg.lease_seconds
              (world.clock 1) db)
        else (none, db)
      else (some (record { claimed = 0; published = 0; failed = 0 }), db)
