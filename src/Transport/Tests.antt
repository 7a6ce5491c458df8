-- ===== src/Transport/Tests.antt =====
-- A batch of two phones that the CRM answers in part, and a CRM that is busy.
use doxx.Base.{
  ℕ, ◌+◌, ◌*◌, ◌≤◌, ◌<◌, ◌≡◌, refl, arith, true, false, none, some, [], ◌∷◌, length, leb,
  if◌then◌else◌,
}
use doxx.Fingerprint.{is_space, strip_start, strip_end}
use doxx.Crm.{CrmBatchApplyResult}
use doxx.Crm.Answers.{
  extract_batch_rows, row_looks_success, row_retryable_row, normalize_action, no_json,
}
use doxx.Crm.Classify.{
  row_to_apply_result, present_row_result, classified, classify_batch_sync_response, batch_of,
  zip_rows,
}
use doxx.Crm.Tests.{phone, laptop, py, defaults, two_events, answer}
use doxx.Transport.{
  send_together, ◌>>=◌, ensure_client, pure, catch_business, attempts, judge, take_classified,
  retry_retryable_items_in_batch, Http, Network, HttpSettings, HttpResponse, Reply, response,
  no_response, ok, raised, value_error, request_with_retry, send_batch_events, ask,
}
use doxx.Transport.Results.{IsSent, send_batch_events-IsSent}
use doxx.Transport.Budget.{requests-send_batch_events}
use doxx.Transport.Retrying.{
  is_transient, error_of, request_with_retry-recovers, request_with_retry-gives_up,
  send_batch_events-unread_header,
}
use doxx.Transport.Dead.{has_retryable}
use doxx.Transport.Settling.{sent_of, unanswered_retry_forgets}
use doxx.Sync.Rounds.{settle_sent}
use doxx.Sync.Tests.{start, settings, world}

abbrev cfg : HttpSettings
cfg = record { retry_attempts = 2; retry_backoff = 1; retry_only_retryable_items = true }

abbrev single_answers : HttpSettings
single_answers = record cfg { retry_only_retryable_items = false }

abbrev fresh : Http
fresh = record { requests = 0; retries = 0; has_client = true; batch_supported = true }

abbrev partly : HttpResponse
partly = record { status_code = 200; retry_after = none; body = answer }

abbrev busy_until : HttpResponse
busy_until = record {
  status_code = 429;
  retry_after = some "Fri, 27 Nov 2026 03:00:00 GMT";
  body = no_json;
}

abbrev broken : HttpResponse
broken = record { status_code = 503; retry_after = none; body = no_json }

-- The replies by their numbers; numbers alone are read from a header.
abbrev net_of : (ℕ → Reply) → Network
net_of replies = record {
  reply = replies;
  refuses = λ r. none;
  float = λ s. none;
  can_start = true;
}

-- One answer, and then silence.
abbrev once : ℕ → Reply
once n = if leb 1 n then no_response else response partly

abbrev quiet : Network
quiet = net_of once

-- Two errors of the server before the answer.
abbrev third_time : ℕ → Reply
third_time n = if leb 2 n then response partly else response broken

abbrev shaky : Network
shaky = net_of third_time

abbrev down : Network
down = net_of (λ n. response broken)

abbrev dated : Network
dated = net_of (λ n. response busy_until)

send_batch_events-IsSent_example :
    IsSent py defaults two_events (send_batch_events shaky cfg py defaults two_events fresh).0
send_batch_events-IsSent_example = send_batch_events-IsSent py defaults shaky cfg two_events fresh

requests-send_batch_events_example :
    ((send_batch_events down cfg py defaults two_events fresh).1.requests
      ≤ 0 + (1 + 2 * length two_events) * (2 + 1))
requests-send_batch_events_example =
    requests-send_batch_events down cfg py defaults two_events fresh

shaky_at_first : (i : ℕ) → 0 ≤ i → i < 0 + 2 → is_transient shaky cfg (shaky.reply i) ≡ true
shaky_at_first i low high = ground arith

request_with_retry-recovers_example :
    let (outcome, h') = request_with_retry shaky cfg fresh in
    (outcome ≡ ok partly) × (h'.requests ≡ 0 + 2 + 1) × (h'.retries ≡ 0 + 2)
request_with_retry-recovers_example =
    request_with_retry-recovers shaky cfg fresh 2 partly (omega arith) shaky_at_first refl
      (omega arith) refl

always_down : (i : ℕ) → 0 ≤ i → i < 0 + 2 + 1 → is_transient down cfg (down.reply i) ≡ true
always_down i low high = refl

request_with_retry-gives_up_example :
    let (outcome, h') = request_with_retry down cfg fresh in
    (outcome ≡ raised (error_of down cfg (response broken)))
    × (h'.requests ≡ 0 + 2 + 1)
    × (h'.retries ≡ 0 + 2)
request_with_retry-gives_up_example = request_with_retry-gives_up down cfg fresh always_down

send_batch_events-unread_header_example :
    send_batch_events dated cfg py defaults two_events fresh
    ≡ (raised value_error, ask dated cfg fresh)
send_batch_events-unread_header_example =
    send_batch_events-unread_header dated cfg py defaults phone (laptop ∷ []) fresh busy_until
      "Fri, 27 Nov 2026 03:00:00 GMT" refl refl refl refl refl refl

abbrev partial : CrmBatchApplyResult
partial =
    batch_of py (zip_rows py defaults 200 two_events (extract_batch_rows answer 2)) true 200 none

partial_eq : classify_batch_sync_response py defaults two_events 200 answer ≡ classified partial
unfolding classify_batch_sync_response extract_batch_rows
partial_eq = refl

-- The second phone's row is an error that can be tried again.
second_again : has_retryable two_events partial.items ≡ true
unfolding extract_batch_rows row_to_apply_result present_row_result row_looks_success
    row_retryable_row normalize_action strip_end strip_start is_space
second_again = refl

silent_after : (i : ℕ) → 1 ≤ i → quiet.reply i ≡ no_response
silent_after i low = ground arith

unanswered_retry_forgets_example :
    let sent = (send_batch_events quiet cfg py defaults two_events fresh).0 in
    let (p', stops) = settle_sent world settings 3 two_events (sent_of sent) start in
    (p'.registry ≡ start.registry)
    × (p'.identity_bridge ≡ start.identity_bridge)
    × (p'.metrics.items_synced ≡ start.metrics.items_synced)
    × (stops ≡ true)
unanswered_retry_forgets_example =
    unanswered_retry_forgets world settings quiet cfg py defaults phone (laptop ∷ []) fresh partly
      partial 3 start refl refl refl refl (omega arith, refl) partial_eq second_again silent_after

sent_partly : (send_batch_events quiet single_answers py defaults two_events fresh).0 ≡ ok partial
unfolding send_batch_events send_together ◌>>=◌ ensure_client pure catch_business request_with_retry
    attempts judge take_classified classify_batch_sync_response extract_batch_rows
    retry_retryable_items_in_batch
sent_partly = refl
