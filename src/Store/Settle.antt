-- ===== src/Store/Settle.antt =====
-- Marking an outbox row published or failed, each in one transaction of
-- infrastructure/persistence/sqlite_store.py: the row, the product's state and the attempt.
use doxx.Base.{
  ℕ, ◌+◌, ◌-◌, ◌*◌, ◌^◌, max, String, Bool, true, false, ◌&&◌, Option, none, some, List, [], ◌∷◌,
  ltb, ◌==◌, ◌=s=◌, if◌then◌else◌,
}
use doxx.Table.{update_where, find}
use doxx.Store.Rows.{
  Time, Status, published, retryable, failed, OutboxRow, Attempt, Db, ScraperProductEvent,
}
use doxx.Store.Env.{Settings, Externals}
use doxx.Store.Iso.{second}
use doxx.Store.Outbox.{set_state}

-- `insert into publication_attempts … on conflict(outbox_id, attempt_number) do update`: a
-- conflicting row keeps its `attempted_at`.
unfoldable pub record_attempt : Attempt → List Attempt → List Attempt
record_attempt a [] = a ∷ []
record_attempt a (b ∷ bs) =
    if b.outbox_id == a.outbox_id && b.attempt_number == a.attempt_number
    then record b {
      success = a.success;
      error_message = a.error_message;
      publisher_name = a.publisher_name;
      created_at = a.created_at;
    }
      ∷ bs
    else b ∷ record_attempt a bs

-- `coalesce(?, payload_json)`
abbrev pub coalesce : Option String → String → String
coalesce none old = old
coalesce (some new) old = new

-- The three statements that end both marks: the outbox row, its product, and the attempt.
unfoldable pub settle : OutboxRow → (OutboxRow → OutboxRow) → Status → Time → Attempt → Db → Db
settle row change st now attempt db = record db {
  outbox = update_where (λ r. r.id == row.id) change db.outbox;
  products = update_where (λ q. q.id == row.raw_product_id) (set_state st now) db.products;
  attempts = record_attempt attempt db.attempts;
}

-- The event's own `published_at`, if it has one, or the clock; with the text to store.
abbrev pub published_time : Externals → Option ScraperProductEvent → Time → Time × Option String
published_time ext none now = (now, none)
published_time ext (some e) now = elim (e.publication.published_at) [
  | none ↦ (now, none)
  | some t ↦ (t, some (ext.dumps_event e))
]

unfoldable pub published_row : ℕ → Option String → Time → OutboxRow → OutboxRow
published_row n payload_json now r = record r {
  status = published;
  retry_count = n;
  payload_json = coalesce payload_json r.payload_json;
  published_at = some now;
  lease_owner = none;
  lease_expires_at = none;
  last_error = none;
  updated_at = now;
}

unfoldable pub mark_outbox_published :
    Externals → String → String → Option ScraperProductEvent → Time → Db → Db
mark_outbox_published ext event_id publisher_id published_event clock db =
    let (now, payload_json) = published_time ext published_event clock in
    elim (find (λ r. r.event_id =s= event_id) db.outbox) [
      | none ↦ db
      | some row ↦
          let n = row.retry_count + 1 in
          settle row (published_row n payload_json now) published now
            (record {
              outbox_id = row.id;
              attempt_number = n;
              attempted_at = now;
              success = true;
              error_message = none;
              publisher_name = some publisher_id;
              created_at = now;
            })
            db
    ]

-- `max(int(given or default), 1)`
unfoldable pub or_default : Option ℕ → ℕ → ℕ
or_default none d = max d 1
or_default (some n) d = max (if n == 0 then d else n) 1

-- `retryable and attempt_number < max_retry_count`
unfoldable pub can_retry : Bool → ℕ → ℕ → Bool
can_retry retry n max_retry_count = retry && ltb n max_retry_count

unfoldable pub backoff_seconds : ℕ → ℕ → ℕ
backoff_seconds retry_delay_seconds n = retry_delay_seconds * max 1 (2 ^ (n - 1))

abbrev pub next_status : Bool → Status
next_status again = if again then retryable else failed

unfoldable pub failed_row : Bool → ℕ → Time → String → Time → OutboxRow → OutboxRow
failed_row again n available_at error_message now r = record r {
  status = next_status again;
  retry_count = n;
  available_at = available_at;
  lease_owner = none;
  lease_expires_at = none;
  last_error = some error_message;
  updated_at = now;
}

unfoldable pub mark_outbox_failed :
    Settings → String → String → String → Bool → Option ℕ → Option ℕ → Time → Db → Db
mark_outbox_failed cfg event_id publisher_id error_message retry max_retries retry_base now db =
    elim (find (λ r. r.event_id =s= event_id) db.outbox) [
      | none ↦ db
      | some row ↦
          let n = row.retry_count + 1 in
          let again = can_retry retry n (or_default max_retries cfg.scraper_outbox_max_retries) in
          let delay =
            backoff_seconds (or_default retry_base cfg.scraper_outbox_retry_base_seconds) n in
          let available_at = now + (if again then delay else 0) * second in
          settle row (failed_row again n available_at error_message now) (next_status again) now
            (record {
              outbox_id = row.id;
              attempt_number = n;
              attempted_at = now;
              success = false;
              error_message = some error_message;
              publisher_name = some publisher_id;
              created_at = now;
            })
            db
    ]
