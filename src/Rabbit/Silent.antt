-- ===== src/Rabbit/Silent.antt =====
-- The steps of a publication that hand nothing to the broker.
use doxx.Base.{◌≡◌, refl, ◌∙◌, Bool, true, false, Option, none, some, List, arith, if_cases}
use doxx.Fingerprint.{UrlSplit}
use doxx.Store.Rows.{ScraperProductEvent}
use doxx.Rabbit.{
  Raised, Transport, Aio, Step, after, call, assign, ready, invalidate_transport, ensure_topology,
  resolve_exchange, open_connection, ensure_connection, ensure_channel, ensure_exchange, connect,
}

-- The messages that were handed over are still the same.
unfoldable pub Keeps : List ScraperProductEvent → Option Raised × Transport → Type 0
Keeps h r = r.1.handed ≡ h

pub keeps :
    (h : List ScraperProductEvent) (r : Option Raised × Transport) → r.1.handed ≡ h → Keeps h r
unfolding Keeps
keeps h r same = same

pub handed_of :
    (h : List ScraperProductEvent) (r : Option Raised × Transport) → Keeps h r → r.1.handed ≡ h
unfolding Keeps
handed_of h r same = same

abbrev pub IsSilent : Step → Type 0
IsSilent step = (t : Transport) → Keeps t.handed (step t)

after-IsSilent :
    (r : Option Raised × Transport) (next : Step) (h : List ScraperProductEvent)
    → Keeps h r
    → IsSilent next
    → Keeps h (after r next)
after-IsSilent (none, t) next h same silent =
    keeps h _ (handed_of t.handed (next t) (silent t) ∙ handed_of h (none, t) same)
after-IsSilent (some e, t) next h same silent = same

module _ (aio : Aio) (urlsplit : UrlSplit) (declare_topology : Bool) where
  pub invalidate_transport-handed :
      (t : Transport) → (invalidate_transport aio urlsplit declare_topology t).handed ≡ t.handed
  unfolding invalidate_transport
  invalidate_transport-handed t = ground arith

  -- A call of aio-pika, and an assignment of attributes after it.
  call-assign :
      (f : Transport → Transport)
      → ((s : Transport) → (f s).handed ≡ s.handed)
      → IsSilent (λ t.
        after (call aio urlsplit declare_topology t) (assign aio urlsplit declare_topology f))
  call-assign f same t =
      after-IsSilent (call aio urlsplit declare_topology t) (assign aio urlsplit declare_topology f)
        t.handed (keeps t.handed _ refl) (λ s. keeps s.handed _ (same s))

  abbrev pub with_exchange : Transport → Transport
  with_exchange s = record s { exchange = true }

  abbrev pub with_queue : Transport → Transport
  with_queue s = record s { queue = true }

  abbrev pub with_connection : Transport → Transport
  with_connection s = record s { connection = true }

  abbrev pub with_channel : Transport → Transport
  with_channel s = record s { channel = true; exchange = false; queue = false }

  ensure_topology-IsSilent : IsSilent (ensure_topology aio urlsplit declare_topology)
  unfolding ensure_topology
  ensure_topology-IsSilent t =
      after-IsSilent _ _ t.handed (call-assign with_exchange (λ s. refl) t) (λ s.
        after-IsSilent _ _ s.handed (call-assign with_queue (λ q. refl) s)
          (λ q. keeps q.handed _ refl))

  resolve_exchange-IsSilent : IsSilent (resolve_exchange aio urlsplit declare_topology)
  unfolding resolve_exchange
  resolve_exchange-IsSilent t =
      if_cases (Keeps t.handed) declare_topology (λ d. ensure_topology-IsSilent t)
        (λ n. call-assign with_exchange (λ s. refl) t)

  ensure_connection-IsSilent : IsSilent (ensure_connection aio urlsplit declare_topology)
  unfolding ensure_connection
  ensure_connection-IsSilent t =
      let r = ready aio urlsplit declare_topology t.connection t in
      if_cases (Keeps t.handed) r.0 (λ fine. keeps t.handed _ refl)
        (λ gone.
          let u = invalidate_transport aio urlsplit declare_topology r.1 in
          keeps t.handed (open_connection aio urlsplit declare_topology r.1) (
            handed_of u.handed _ (call-assign with_connection (λ s. refl) u)
            ∙ invalidate_transport-handed r.1))

  ensure_channel-IsSilent : IsSilent (ensure_channel aio urlsplit declare_topology)
  unfolding ensure_channel
  ensure_channel-IsSilent t =
      let r = ready aio urlsplit declare_topology t.channel t in
      if_cases (Keeps t.handed) r.0 (λ fine. keeps t.handed _ refl)
        (λ gone. call-assign with_channel (λ s. refl) r.1)

  ensure_exchange-IsSilent : IsSilent (ensure_exchange aio urlsplit declare_topology)
  unfolding ensure_exchange
  ensure_exchange-IsSilent t =
      if_cases (Keeps t.handed) t.exchange (λ there. keeps t.handed _ refl)
        (λ gone. resolve_exchange-IsSilent t)

  pub connect-IsSilent : IsSilent (connect aio urlsplit declare_topology)
  unfolding connect
  connect-IsSilent t =
      after-IsSilent _ _ t.handed
        (after-IsSilent _ _ t.handed (ensure_connection-IsSilent t) ensure_channel-IsSilent)
        ensure_exchange-IsSilent
