-- ===== src/Rabbit.antt =====
-- `RabbitMQPublisher` of services/publisher/rabbit_publisher.py: the connection, the channel and the
-- exchange, and the publication of an event with one retry.
pub mod Silent
pub mod Sends
pub mod Nested
pub mod Half
mod Tests
use doxx.Base.{
  ℕ, ◌+◌, Bool, true, false, not, ◌&&◌, Option, none, some, List, [], ◌∷◌, is_empty, if◌then◌else◌,
}
use doxx.Fingerprint.{UrlSplit}
use doxx.Store.Rows.{ScraperProductEvent}
use doxx.Contract.{contract_errors}

-- An exception: one of `_RECOVERABLE_PUBLISH_EXCEPTIONS`, the ValueError of the contract, or another.
pub data Raised : Type 0 where
  recoverable contract_error other_exception : Raised

abbrev pub is_recoverable : Raised → Bool
is_recoverable recoverable = true
is_recoverable _ = false

-- Which attributes are not `None`; the calls of aio-pika so far and the readings of `is_closed`, by
-- which the outside is asked; and the messages handed to the exchange, the latest first.
pub record Transport : Type 0 where
  pub connection : Bool
  pub channel : Bool
  pub exchange : Bool
  pub queue : Bool
  pub calls : ℕ
  pub readings : ℕ
  pub handed : List ScraperProductEvent

-- What aio-pika does: the exception that its n-th call raises, and what the n-th reading of an
-- `is_closed` says.
pub record Aio : Type 0 where
  pub raises : ℕ → Option Raised
  pub is_closed : ℕ → Bool

abbrev pub Step : Type 0
Step = Transport → Option Raised × Transport

-- One statement after another: an exception ends the method.
abbrev pub after : Option Raised × Transport → Step → Option Raised × Transport
after (none, t) next = next t
after (some e, t) next = (some e, t)

module _ (aio : Aio) (urlsplit : UrlSplit) (declare_topology : Bool) where
  abbrev pub call : Step
  call t = (aio.raises t.calls, record t { calls = t.calls + 1 })

  -- An assignment after a call that returned.
  abbrev pub assign : (Transport → Transport) → Step
  assign f t = (none, f t)

  -- Whether the resource is there and open, and the transport with the reading counted.
  abbrev pub ready : Bool → Transport → Bool × Transport
  ready present t =
      (present && not (aio.is_closed t.readings), record t { readings = t.readings + 1 })

  -- `_close_safely`: whatever the call raises is swallowed.
  abbrev pub close_safely : Bool → Transport → Transport
  close_safely present t = if present then record t { calls = t.calls + 1 } else t

  unfoldable pub invalidate_transport : Transport → Transport
  invalidate_transport t =
      let cleared = record t {
        connection = false;
        channel = false;
        exchange = false;
        queue = false;
      } in
      close_safely t.connection (close_safely t.channel cleared)

  unfoldable pub ensure_topology : Step
  ensure_topology t =
      after (after (call t) (assign (λ s. record s { exchange = true })))
        (λ s. after (after (call s) (assign (λ q. record q { queue = true }))) call)

  unfoldable pub resolve_exchange : Step
  resolve_exchange t =
      if declare_topology
      then ensure_topology t
      else after (call t) (assign (λ s. record s { exchange = true }))

  abbrev pub open_connection : Step
  open_connection t =
      after (call (invalidate_transport t)) (assign (λ s. record s { connection = true }))

  abbrev pub open_channel : Step
  open_channel t =
      after (call t) (assign (λ s. record s { channel = true; exchange = false; queue = false }))

  unfoldable pub ensure_connection : Step
  ensure_connection t =
      let (fine, asked) = ready t.connection t in
      if fine then (none, asked) else open_connection asked

  unfoldable pub ensure_channel : Step
  ensure_channel t =
      let (fine, asked) = ready t.channel t in if fine then (none, asked) else open_channel asked

  unfoldable pub ensure_exchange : Step
  ensure_exchange t = if t.exchange then (none, t) else resolve_exchange t

  unfoldable pub connect : Step
  connect t = after (after (ensure_connection t) ensure_channel) ensure_exchange

  -- The contract is tested before the message is handed over.
  unfoldable pub hand_over : ScraperProductEvent → Step
  hand_over event t =
      if is_empty (contract_errors urlsplit event)
      then call (record t { handed = event ∷ t.handed })
      else (some contract_error, t)

  unfoldable pub publish_once : ScraperProductEvent → Step
  publish_once event t = after (if t.exchange then (none, t) else connect t) (hand_over event)

  -- The `except` clause: a recoverable exception is met by one more try on a new connection.
  abbrev pub or_again : ScraperProductEvent → Option Raised × Transport → Option Raised × Transport
  or_again event (none, t) = (none, t)
  or_again event (some e, t) =
      if is_recoverable e
      then after (connect (invalidate_transport t)) (publish_once event)
      else (some e, t)

  unfoldable pub publish : ScraperProductEvent → Step
  publish event t = or_again event (publish_once event t)

  unfoldable pub close : Transport → Transport
  close t = invalidate_transport t
