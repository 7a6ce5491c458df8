-- ===== src/Rabbit/Nested.antt =====
-- The attributes of the transport: a channel belongs to a connection, and an exchange and a queue to
-- a channel.
use doxx.Base.{
  ◌≡◌, refl, Bool, true, false, not, ◌&&◌, ◌||◌, Option, none, some, arith, if◌then◌else◌, if_cases,
}
use doxx.Fingerprint.{UrlSplit}
use doxx.Store.Rows.{ScraperProductEvent}
use doxx.Rabbit.{
  Raised, is_recoverable, Transport, Aio, Step, after, invalidate_transport, ensure_topology,
  resolve_exchange, ensure_connection, ensure_channel, ensure_exchange, connect, hand_over,
  publish_once, or_again, publish, close,
}

-- What is there rests on what it needs.
abbrev pub nested : Transport → Bool
nested t =
    (not t.exchange || t.channel) && (not t.queue || t.channel) && (not t.channel || t.connection)

abbrev pub is_none : Option Raised → Bool
is_none none = true
is_none (some e) = false

module _ (aio : Aio) (urlsplit : UrlSplit) (declare_topology : Bool) where
  ensure_connection-nested :
      (t : Transport)
      → nested t ≡ true
      → let r = ensure_connection aio urlsplit declare_topology t in
        (nested r.1 ≡ true) × (r.0 ≡ none → r.1.connection ≡ true)
  unfolding ensure_connection invalidate_transport
  ensure_connection-nested t h = ground arith

  ensure_channel-nested :
      (t : Transport)
      → nested t ≡ true
      → t.connection ≡ true
      → let r = ensure_channel aio urlsplit declare_topology t in
        (nested r.1 ≡ true) × (r.0 ≡ none → r.1.channel ≡ true)
  unfolding ensure_channel
  ensure_channel-nested t h c = ground arith

  ensure_exchange-nested :
      (t : Transport)
      → nested t ≡ true
      → t.channel ≡ true
      → let r = ensure_exchange aio urlsplit declare_topology t in
        (nested r.1 ≡ true) × (r.0 ≡ none → r.1.exchange ≡ true)
  unfolding ensure_exchange resolve_exchange ensure_topology
  ensure_exchange-nested t h c = ground arith

  -- After a step that keeps the order, one that keeps it where the first succeeded.
  after-nested :
      (Q : Transport → Bool) (R : Transport → Bool) (r : Option Raised × Transport) (next : Step)
      → (nested r.1 ≡ true) × (r.0 ≡ none → Q r.1 ≡ true)
      → ((t : Transport)
          → nested t ≡ true
          → Q t ≡ true
          → (nested (next t).1 ≡ true) × ((next t).0 ≡ none → R (next t).1 ≡ true))
      → (nested (after r next).1 ≡ true) × ((after r next).0 ≡ none → R (after r next).1 ≡ true)
  after-nested Q R (none, t) next (h, q) step = step t h (q refl)
  after-nested Q R (some e, t) next (h, q) step = (h, λ k. absurd (cc k))

  -- A connection that is made has a connection, a channel and an exchange; a failure leaves no
  -- channel without a connection and no exchange or queue without a channel.
  connect-nested :
      (t : Transport)
      → nested t ≡ true
      → let r = connect aio urlsplit declare_topology t in
        (nested r.1 ≡ true) × (r.0 ≡ none → r.1.exchange ≡ true)
  unfolding connect
  connect-nested t h =
      after-nested (λ s. s.channel) (λ s. s.exchange) _ _
        (after-nested (λ s. s.connection) (λ s. s.channel) _ _ (ensure_connection-nested t h)
          ensure_channel-nested)
        ensure_exchange-nested

  hand_over-nested :
      (event : ScraperProductEvent) (t : Transport)
      → nested t ≡ true
      → t.exchange ≡ true
      → let r = hand_over aio urlsplit declare_topology event t in
        (nested r.1 ≡ true) × (r.0 ≡ none → r.1.exchange ≡ true)
  unfolding hand_over
  hand_over-nested event t h there = ground (arith, there)

  publish_once-nested :
      (event : ScraperProductEvent) (t : Transport)
      → nested t ≡ true
      → let r = publish_once aio urlsplit declare_topology event t in
        (nested r.1 ≡ true) × (r.0 ≡ none → r.1.exchange ≡ true)
  unfolding publish_once
  publish_once-nested event t h =
      let Fine : Option Raised × Transport → Type 0 =
        λ r. (nested r.1 ≡ true) × (r.0 ≡ none → r.1.exchange ≡ true) in
      let start : Fine (if t.exchange then (none, t) else connect aio urlsplit declare_topology t) =
        if_cases Fine t.exchange (λ there. (h, λ k. there)) (λ gone. connect-nested t h) in
      after-nested (λ s. s.exchange) (λ s. s.exchange) _ _ start (hand_over-nested event)

  invalidate_transport-nested :
      (t : Transport)
      → let u = invalidate_transport aio urlsplit declare_topology t in
        (nested u ≡ true) × (u.connection ≡ false)
  unfolding invalidate_transport
  invalidate_transport-nested t = ground arith

  or_again-nested :
      (event : ScraperProductEvent) (r : Option Raised × Transport)
      → (nested r.1 ≡ true) × (r.0 ≡ none → r.1.exchange ≡ true)
      → let s = or_again aio urlsplit declare_topology event r in
        (nested s.1 ≡ true) × (s.0 ≡ none → s.1.exchange ≡ true)
  or_again-nested event (none, t) h = h
  or_again-nested event (some e, t) (h, q) =
      let u = invalidate_transport aio urlsplit declare_topology t in
      let again : Option Raised × Transport =
        after (connect aio urlsplit declare_topology u)
          (publish_once aio urlsplit declare_topology event) in
      let Fine : Option Raised × Transport → Type 0 =
        λ r. (nested r.1 ≡ true) × (r.0 ≡ none → r.1.exchange ≡ true) in
      if_cases Fine (is_recoverable e)
        (λ y.
          after-nested (λ s. s.exchange) (λ s. s.exchange) _ _
            (connect-nested u (invalidate_transport-nested t).0)
            (λ s hs there. publish_once-nested event s hs))
        (λ n. (h, λ k. absurd (cc k)))

-- Whatever aio-pika raises, publishing keeps the order of the attributes: a channel only with a
-- connection, an exchange or a queue only with a channel. After a success all three that sending
-- needs are there, and closing the publisher leaves none of the four.
pub publish-nested :
    (aio : Aio) (urlsplit : UrlSplit) (declare_topology : Bool) (event : ScraperProductEvent)
    (t : Transport)
    → nested t ≡ true
    → let r = publish aio urlsplit declare_topology event t in
      let u = close aio urlsplit declare_topology t in
      (nested r.1 ≡ true)
      × (r.0 ≡ none → (r.1.exchange && r.1.channel && r.1.connection) ≡ true)
      × ((u.exchange || u.queue || u.channel || u.connection) ≡ false)
unfolding publish close
publish-nested aio urlsplit declare_topology event t h =
    let once = publish_once-nested aio urlsplit declare_topology event t h in
    let (kept, success) = or_again-nested aio urlsplit declare_topology event _ once in
    let (order, gone) = invalidate_transport-nested aio urlsplit declare_topology t in
    (kept, λ k. ground (arith, kept, success k), ground (arith, order, gone))
