-- ===== src/Recency/Journal.antt =====
-- The attempts of `RuntimeReplayJournal` of infrastructure/sync/runtime_replay_journal.py.
use doxx.Base.{
  ℕ, ◌+◌, ◌≤◌, ◌≡◌, refl, String, Bool, false, Option, none, some, List, arith, length, ltb,
  if◌then◌else◌,
}
use doxx.Fingerprint.{strip_start, strip_end, is_blank}
use doxx.Recency.{get, put, trim}
use doxx.Recency.Laws.{put_trim_lem}

abbrev pub Attempts : Type 0
Attempts = List (String × ℕ)

-- `d.get(k, 0)`
abbrev pub or_zero : Option ℕ → ℕ
or_zero none = 0
or_zero (some n) = n

-- `(idempotency_key or "").strip()`
unfoldable pub clean_key : String → String
clean_key idempotency_key = strip_end (strip_start idempotency_key)

unfoldable pub remember_send_attempt : ℕ → String → Attempts → Attempts
remember_send_attempt max_n idempotency_key attempts =
    let k = clean_key idempotency_key in
    if is_blank k then attempts else trim max_n (put k (or_zero (get k attempts) + 1) attempts)

unfoldable pub has_seen_idempotency_key : String → Attempts → Bool
has_seen_idempotency_key idempotency_key attempts =
    let k = clean_key idempotency_key in
    if is_blank k then false else ltb 1 (or_zero (get k attempts))

unfoldable pub send_attempt_count : String → Attempts → ℕ
send_attempt_count idempotency_key attempts =
    let k = clean_key idempotency_key in if is_blank k then 0 else or_zero (get k attempts)

-- An attempt with a key that is not blank is counted, and a positive limit on keys is kept; the key
-- counts as seen from its second attempt on.
pub remember_send_attempt_lem :
    (max_n : ℕ) (key : String) (attempts : Attempts)
    → is_blank (clean_key key) ≡ false
    → let attempts' = remember_send_attempt max_n key attempts in
      (send_attempt_count key attempts' ≡ send_attempt_count key attempts + 1)
      × (has_seen_idempotency_key key attempts' ≡ ltb 0 (send_attempt_count key attempts))
      × (1 ≤ max_n → length attempts' ≤ max_n)
unfolding remember_send_attempt send_attempt_count has_seen_idempotency_key
remember_send_attempt_lem max_n key attempts h =
    let k = clean_key key in
    let (found, bound) = put_trim_lem max_n k (or_zero (get k attempts) + 1) attempts in
    (rw (h, found) refl, rw (h, found) (ground arith), rw h bound)
