-- ===== src/Rabbit/Half.antt =====
-- A topology that is declared half way: `connect` tests the exchange alone, which is set before the
-- queue is declared and bound.
use doxx.Base.{ℕ, ◌+◌, ◌≡◌, refl, true, false, none, some}
use doxx.Fingerprint.{UrlSplit}
use doxx.Rabbit.{
  Raised, Transport, Aio, ensure_topology, resolve_exchange, ensure_connection, ensure_channel,
  ensure_exchange, connect,
}

module _ (aio : Aio) (urlsplit : UrlSplit) (is_open : (n : ℕ) → aio.is_closed n ≡ false) where
  -- The transport after the exchange is declared and the queue is not.
  abbrev half : Transport → Transport
  half t = record t { exchange = true; calls = t.calls + 1 + 1; readings = t.readings + 1 + 1 }

  first_connect :
      (e : Raised) (t : Transport)
      → aio.raises t.calls ≡ none
      → aio.raises (t.calls + 1) ≡ some e
      → t.connection ≡ true
      → t.channel ≡ true
      → t.exchange ≡ false
      → connect aio urlsplit true t ≡ (some e, half t)
  unfolding connect ensure_connection ensure_channel ensure_exchange resolve_exchange
      ensure_topology
  first_connect e t exchange_ok queue_fails conn chan no_exchange =
      rw
        (
          conn,
          chan,
          no_exchange,
          is_open t.readings,
          is_open (t.readings + 1),
          exchange_ok,
          queue_fails,
        )
        refl

  second_connect :
      (t : Transport)
      → t.connection ≡ true
      → t.channel ≡ true
      → t.exchange ≡ true
      → connect aio urlsplit true t ≡ (none, record t { readings = t.readings + 1 + 1 })
  unfolding connect ensure_connection ensure_channel ensure_exchange
  second_connect t conn chan there =
      rw (conn, chan, there, is_open t.readings, is_open (t.readings + 1)) refl

-- Where the declaration of the queue raises an exception on an open channel, `connect` raises it,
-- but the next `connect` succeeds without a call to the broker: the queue stays undeclared and
-- unbound.
pub queue_left_undeclared :
    (aio : Aio) (urlsplit : UrlSplit) (e : Raised) (t : Transport)
    → ((n : ℕ) → aio.is_closed n ≡ false)
    → aio.raises t.calls ≡ none
    → aio.raises (t.calls + 1) ≡ some e
    → t.connection ≡ true
    → t.channel ≡ true
    → t.exchange ≡ false
    → t.queue ≡ false
    → let first = connect aio urlsplit true t in
      let second = connect aio urlsplit true first.1 in
      (first.0 ≡ some e)
      × (second.0 ≡ none)
      × (second.1.exchange ≡ true)
      × (second.1.queue ≡ false)
      × (second.1.calls ≡ first.1.calls)
queue_left_undeclared aio urlsplit e t is_open exchange_ok queue_fails conn chan no_exchange
      no_queue =
    let again = second_connect aio urlsplit is_open (half aio urlsplit is_open t) conn chan refl in
    rw (first_connect aio urlsplit is_open e t exchange_ok queue_fails conn chan no_exchange, again)
      (refl, refl, refl, no_queue, refl)
