-- ===== src/Transport/Retrying.antt =====
-- The retries of one request: when it recovers, when it gives up, and the header that stops it.
use doxx.Base.{
  ap, ◌∙◌, if_true, ℕ, zero, suc, ◌+◌, ◌*◌, ◌^◌, ◌≤◌, ◌<◌, ◌≡◌, refl, Bool, true, false, ◌&&◌, ◌||◌,
  Option, none, some, List, ◌∷◌, arith, leb, ◌==◌, String, inl, inr, Bool-cases, Option-cases,
}
use doxx.Batch.{SyncEvent}
use doxx.Crm.Answers.{TextOps, Answering}
use doxx.Transport.{
  Action, Outcome, ok, raised, Raised, business_error, transport_error, value_error, Http, Network,
  HttpSettings, HttpResponse, Reply, response, no_response, Verdict, returns, fails, tries_again,
  judge, retry_after_seconds, settle_verdict, ask, count_retry, attempts, request_with_retry,
  send_batch_events, send_together, ensure_client, pure, raise, ◌>>=◌, catch_business,
}

abbrev is_some : Option ℕ → Bool
is_some none = false
is_some (some n) = true

pub proceeds :
    {A B : Type 0} (m : Action A) (f : A → Action B) (h h' : Http) {a : A}
    → m h ≡ (ok a, h')
    → (m >>= f) h ≡ f a h'
unfolding ◌>>=◌
proceeds m f h h' same = rw same refl

fails_through :
    {A B : Type 0} (m : Action A) (f : A → Action B) (g : ℕ → Action B) (h h' : Http)
    → m h ≡ (raised value_error, h')
    → catch_business (m >>= f) g h ≡ (raised value_error, h')
unfolding ◌>>=◌ catch_business raise
fails_through m f g h h' same = rw same refl

module _ (net : Network) (cfg : HttpSettings) where
  -- A reply after which the request is tried again: none at all, an error of the server, or a 429
  -- whose header, if there is one, is a number.
  abbrev pub is_transient : Reply → Bool
  is_transient no_response = true
  is_transient (response r) =
      leb 500 r.status_code
      || (r.status_code == 429 && is_some (retry_after_seconds net cfg r.retry_after))

  -- The exception that such a reply comes to in the end.
  abbrev pub error_of : Reply → Raised
  error_of no_response = transport_error
  error_of (response r) = business_error r.status_code

  -- A response that is returned.
  abbrev pub IsFine : HttpResponse → Type 0
  IsFine r = (r.status_code < 400) × (net.refuses r ≡ none)

  -- The outcome, the number of the next request, and the retries so far.
  abbrev pub Ends : Outcome HttpResponse × Http → Outcome HttpResponse → ℕ → ℕ → Type 0
  Ends r outcome requests retries =
      (r.0 ≡ outcome) × (r.1.requests ≡ requests) × (r.1.retries ≡ retries)

  -- The replies from one number on, up to another, are transient.
  abbrev pub AreTransient : ℕ → ℕ → Type 0
  AreTransient from upto = (i : ℕ) → from ≤ i → i < upto → is_transient (net.reply i) ≡ true

  transient_judge :
      (attempt : ℕ) (reply : Reply)
      → is_transient reply ≡ true
      → (wait : ℕ) × (judge net cfg attempt reply ≡ tries_again wait (error_of reply))
  unfolding judge
  transient_judge attempt no_response h = (cfg.retry_backoff * 2 ^ attempt, refl)
  transient_judge attempt (response r) h = elim (Bool-cases (leb 500 r.status_code)) [
    | inl broken ↦ (cfg.retry_backoff * 2 ^ attempt, ground arith)
    | inr busy ↦ elim (Option-cases (retry_after_seconds net cfg r.retry_after)) [
      | inl unknown ↦ absurd (ground arith)
      | inr (wait, given) ↦ (wait, ground arith)
    ]
  ]

  pub fine_judge :
      (attempt : ℕ) (r : HttpResponse) → IsFine r → judge net cfg attempt (response r) ≡ returns r
  unfolding judge
  fine_judge attempt r (low, kept) = ground arith

  returned :
      (v : Verdict) (later : Option (Outcome HttpResponse × Http)) (h : Http) (n : ℕ)
      (r : HttpResponse)
      → v ≡ returns r
      → n ≡ h.requests + 0
      → Ends (settle_verdict net cfg v later (ask net cfg h)) (ok r) (n + 1) (h.retries + 0)
  returned v later h n r e at = rw e (refl, omega (arith, at), omega arith)

  fine_at :
      (attempt : ℕ) (h : Http) (n : ℕ) (r : HttpResponse)
      → n ≡ h.requests + 0
      → net.reply n ≡ response r
      → IsFine r
      → judge net cfg attempt (net.reply h.requests) ≡ returns r
  fine_at attempt h n r at good fine =
      let here : h.requests ≡ n = omega (arith, at) in rw (here, good) (fine_judge attempt r fine)

  attempts_recover :
      (k left attempt : ℕ) (h : Http) (n : ℕ) (r : HttpResponse)
      → k ≤ left
      → n ≡ h.requests + k
      → AreTransient h.requests n
      → net.reply n ≡ response r
      → IsFine r
      → Ends (attempts net cfg left attempt h) (ok r) (n + 1) (h.retries + k)
  unfolding attempts
  attempts_recover zero zero attempt h n r few at bad good fine =
      returned _ _ h n r (fine_at attempt h n r at good fine) at
  attempts_recover zero (suc left) attempt h n r few at bad good fine =
      returned _ _ h n r (fine_at attempt h n r at good fine) at
  attempts_recover (suc k) zero attempt h n r few at bad good fine = absurd (omega (arith, few))
  attempts_recover (suc k) (suc left) attempt h n r few at bad good fine =
      let next = count_retry net cfg (ask net cfg h) in
      let rec =
        attempts_recover k left (attempt + 1) next n r (omega (arith, few)) (omega (arith, at))
          (λ i low high. bad i (omega (arith, low)) high) good fine in
      let (wait, again) =
        transient_judge attempt (net.reply h.requests)
          (bad h.requests (omega arith) (omega (arith, at))) in
      rw again (rec.0, rec.1, omega (arith, rec.2))

  attempts_give_up :
      (left attempt : ℕ) (h : Http) (n : ℕ)
      → n ≡ h.requests + left
      → AreTransient h.requests (n + 1)
      → Ends
          (attempts net cfg left attempt h)
          (raised (error_of (net.reply n)))
          (n + 1)
          (h.retries + left)
  unfolding attempts
  attempts_give_up zero attempt h n at bad =
      let here : h.requests ≡ n = omega (arith, at) in
      let (wait, again) =
        transient_judge attempt (net.reply h.requests)
          (bad h.requests (omega arith) (omega (arith, at))) in
      rw again (ap (λ i. raised (error_of (net.reply i))) here, omega (arith, at), omega arith)
  attempts_give_up (suc left) attempt h n at bad =
      let next = count_retry net cfg (ask net cfg h) in
      let rec =
        attempts_give_up left (attempt + 1) next n (omega (arith, at))
          (λ i low high. bad i (omega (arith, low)) high) in
      let (wait, again) =
        transient_judge attempt (net.reply h.requests)
          (bad h.requests (omega arith) (omega (arith, at))) in
      rw again (rec.0, rec.1, omega (arith, rec.2))

  -- A request whose first k replies are transient, and whose next one is a fine response, returns that
  -- response after k retries, when k retries are allowed.
  pub request_with_retry-recovers :
      (h : Http) (k : ℕ) (r : HttpResponse)
      → k ≤ cfg.retry_attempts
      → ((i : ℕ) → h.requests ≤ i → i < h.requests + k → is_transient (net.reply i) ≡ true)
      → net.reply (h.requests + k) ≡ response r
      → r.status_code < 400
      → net.refuses r ≡ none
      → let (outcome, h') = request_with_retry net cfg h in
        (outcome ≡ ok r) × (h'.requests ≡ h.requests + k + 1) × (h'.retries ≡ h.retries + k)
  unfolding request_with_retry
  request_with_retry-recovers h k r few bad good low kept =
      attempts_recover k cfg.retry_attempts 0 h (h.requests + k) r few refl bad good (low, kept)

  -- A request whose replies are all transient makes all its attempts, and then raises the error of
  -- the last reply.
  pub request_with_retry-gives_up :
      (h : Http)
      → ((i : ℕ)
          → h.requests ≤ i
          → i < h.requests + cfg.retry_attempts + 1
          → is_transient (net.reply i) ≡ true)
      → let (outcome, h') = request_with_retry net cfg h in
        (outcome ≡ raised (error_of (net.reply (h.requests + cfg.retry_attempts))))
        × (h'.requests ≡ h.requests + cfg.retry_attempts + 1)
        × (h'.retries ≡ h.retries + cfg.retry_attempts)
  unfolding request_with_retry
  request_with_retry-gives_up h bad =
      attempts_give_up cfg.retry_attempts 0 h (h.requests + cfg.retry_attempts) refl bad

  unread_judge :
      (attempt : ℕ) (r : HttpResponse) (header : String)
      → r.status_code ≡ 429
      → r.retry_after ≡ some header
      → net.float header ≡ none
      → judge net cfg attempt (response r) ≡ fails value_error
  unfolding judge
  unread_judge attempt r header busy given unread = ground arith

  unread_stops :
      (left : ℕ) (h : Http) (r : HttpResponse) (header : String)
      → net.reply h.requests ≡ response r
      → r.status_code ≡ 429
      → r.retry_after ≡ some header
      → net.float header ≡ none
      → attempts net cfg left 0 h ≡ (raised value_error, ask net cfg h)
  unfolding attempts
  unread_stops zero h r header got busy given unread =
      rw (got, unread_judge 0 r header busy given unread) refl
  unread_stops (suc left) h r header got busy given unread =
      rw (got, unread_judge 0 r header busy given unread) refl

  pub started : (h : Http) → h.has_client ≡ true → ensure_client net cfg h ≡ (ok tt, h)
  unfolding ensure_client pure
  started h client = if_true h.has_client _ _ client

  module _ (py : TextOps) (settings : Answering) where
    -- A batch whose first reply is a 429 with a header `Retry-After` that Python's `float` does not
    -- read, an HTTP date for one, raises a ValueError after that one request: it is not tried again,
    -- however many retries are allowed.
    pub send_batch_events-unread_header :
        (e : SyncEvent) (events : List SyncEvent) (h : Http) (r : HttpResponse) (header : String)
        → h.has_client ≡ true
        → h.batch_supported ≡ true
        → net.reply h.requests ≡ response r
        → r.status_code ≡ 429
        → r.retry_after ≡ some header
        → net.float header ≡ none
        → send_batch_events net cfg py settings (e ∷ events) h ≡ (raised value_error, ask net cfg h)
    unfolding send_batch_events send_together request_with_retry
    send_batch_events-unread_header e events h r header client batches got busy given unread =
        if_true h.batch_supported _ _ batches
        ∙ (proceeds (ensure_client net cfg) _ h h (started h client)
            ∙ fails_through (request_with_retry net cfg) _ _ h (ask net cfg h)
                (unread_stops cfg.retry_attempts h r header got busy given unread))
