-- ===== src/Store/Marking.antt =====
-- What the two marks of sqlite_store.py do to the row of an event, and to the others.
use doxx.Base.{
  ℕ, ◌+◌, ◌*◌, ◌^◌, ◌-◌, max, ◌≤◌, ◌≡◌, refl, Bool, true, ◌&&◌, Option, none, some, List, [], ◌∷◌,
  arith, String, if◌then◌else◌, length, ltb, ◌==◌, ◌=s=◌, ◌∙◌, ap,
}
use native.Mathlib.Nat.{one-le-pow}
use doxx.Table.{find, exists, find-update_where}
use doxx.Store.Rows.{Time, Status, retryable, failed, OutboxRow, Attempt, Db}
use doxx.Store.Env.{Settings}
use doxx.Store.Iso.{second}
use doxx.Store.Settle.{
  settle, can_retry, backoff_seconds, or_default, failed_row, mark_outbox_failed, published_row,
  record_attempt,
}

-- The row of an event.
abbrev pub row_of : String → Db → Option OutboxRow
row_of event_id db = find (λ r. r.event_id =s= event_id) db.outbox

failed_row-event :
    (again : Bool) (n : ℕ) (at_time : Time) (message : String) (now : Time) (r : OutboxRow)
    → (failed_row again n at_time message now r).event_id ≡ r.event_id
unfolding failed_row
failed_row-event again n at_time message now r = refl

published_row-event :
    (n : ℕ) (payload : Option String) (now : Time) (r : OutboxRow)
    → (published_row n payload now r).event_id ≡ r.event_id
unfolding published_row
published_row-event n payload now r = refl

-- An update of the row that a search found shows in the next search.
row_of-settle :
    (event_id : String) (change : OutboxRow → OutboxRow) (st : Status) (now : Time) (a : Attempt)
    (db : Db) {row : OutboxRow}
    → ((r : OutboxRow) → (change r).event_id ≡ r.event_id)
    → row_of event_id db ≡ some row
    → row_of event_id (settle row change st now a db) ≡ some (change row)
unfolding settle
row_of-settle event_id change st now a db {row} same found =
    find-update_where (λ r. r.event_id =s= event_id) (λ r. r.id == row.id) change
      (λ r. ap (λ (e : String). e =s= event_id) (same r)) db.outbox
    ∙ ground (arith, found)

backoff_seconds-pow : (b n : ℕ) → backoff_seconds b (n + 1) ≡ b * 2 ^ n
unfolding backoff_seconds
backoff_seconds-pow b n =
    let shift : n + 1 - 1 ≡ n = omega arith in
    let positive : max 1 (2 ^ n) ≡ 2 ^ n = omega (arith, one-le-pow n 2 (omega arith)) in
    rw (shift, positive)

or_default_given : (m d : ℕ) → 1 ≤ m → or_default (some m) d ≡ m
unfolding or_default
or_default_given m d h = ground arith

module _ (event_id publisher_id message : String) (m b : ℕ) (cfg : Settings) (now : Time) (db : Db)
    {row : OutboxRow} (found : row_of event_id db ≡ some row) (retry : Bool)
    (attempts_allowed : 1 ≤ m) (base_positive : 1 ≤ b) where
  -- After a failure the row has one attempt more and no lease. It is retryable if the failure
  -- allows it and the limit of attempts is not reached, and then ready after `b` seconds doubled
  -- with each earlier attempt; otherwise it has failed for good.
  pub mark_outbox_failed_row :
      let again = retry && ltb (row.retry_count + 1) m in
      row_of event_id
        (mark_outbox_failed cfg event_id publisher_id message retry (some m) (some b) now db)
      ≡ some (record row {
        status = (if again then retryable else failed);
        retry_count = row.retry_count + 1;
        available_at = now + (if again then b * 2 ^ row.retry_count else 0) * second;
        lease_owner = none;
        lease_expires_at = none;
        last_error = some message;
        updated_at = now;
      })
  unfolding mark_outbox_failed
  mark_outbox_failed_row =
      rw (found, mark_outbox_failed)
        (row_of-settle event_id _ _ now _ db (failed_row-event _ _ _ _ _) found
          ∙ rw
              (
                or_default_given m cfg.scraper_outbox_max_retries attempts_allowed,
                or_default_given b cfg.scraper_outbox_retry_base_seconds base_positive,
                backoff_seconds-pow b row.retry_count,
              )
              (unfold can_retry failed_row in refl))

-- Failures of one event at the given times, with nothing in between.
abbrev pub fail_at : Settings → String → String → String → ℕ → ℕ → List Time → Db → Db
fail_at cfg event_id publisher_id message m b [] db = db
fail_at cfg event_id publisher_id message m b (now ∷ times) db =
    fail_at cfg event_id publisher_id message m b times
      (mark_outbox_failed cfg event_id publisher_id message true (some m) (some b) now db)

-- What is left of an event after failures: its count of attempts, and whether it may be retried.
pub record HasFailed (event_id : String) (m n : ℕ) (db : Db) : Type 0 where
  pub row : OutboxRow
  pub found : row_of event_id db ≡ some row
  pub counted : row.retry_count ≡ n
  pub status : row.status ≡ (if ltb n m then retryable else failed)

-- An event that fails again and again, always in a way that allows a retry, stays retryable until
-- it has made `m` attempts, and has failed for good from then on.
pub retries_exhaust :
    (cfg : Settings) (event_id publisher_id message : String) (m b : ℕ) (now : Time)
    (times : List Time) (db : Db) {row : OutboxRow}
    → row_of event_id db ≡ some row
    → 1 ≤ m
    → 1 ≤ b
    → HasFailed event_id m
        (row.retry_count + length (now ∷ times))
        (fail_at cfg event_id publisher_id message m b (now ∷ times) db)
retries_exhaust cfg event_id publisher_id message m b now [] db {row} found hm hb = record {
  found = mark_outbox_failed_row event_id publisher_id message m b cfg now db found true hm hb;
  row = _;
  counted = refl;
  status = refl;
}
retries_exhaust cfg event_id publisher_id message m b now (next ∷ times) db {row} found hm hb =
    let step =
      mark_outbox_failed_row event_id publisher_id message m b cfg now db found true hm hb in
    let count : row.retry_count + 1 + length (next ∷ times)
        ≡ row.retry_count + length (now ∷ next ∷ times) =
      omega arith in
    rw (← count) (
      retries_exhaust cfg event_id publisher_id message m b next times
        (mark_outbox_failed cfg event_id publisher_id message true (some m) (some b) now db) step hm
        hb)

-- The attempts that `record_attempt` takes for the same.
abbrev pub same_attempt : Attempt → Attempt → Bool
same_attempt a b = b.outbox_id == a.outbox_id && b.attempt_number == a.attempt_number

-- An attempt is added to the history only under a number that its row has not used. Under a number
-- in use it takes the place of the earlier attempt, so the history does not grow.
pub length-record_attempt :
    (a : Attempt) (bs : List Attempt)
    → length (record_attempt a bs)
      ≡ (if exists (same_attempt a) bs then length bs else length bs + 1)
unfolding record_attempt
length-record_attempt a [] = ground arith
length-record_attempt a (b ∷ bs) = ground (arith, length-record_attempt a bs)
