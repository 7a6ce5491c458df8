-- ===== src/Sync/Exact.antt =====
-- No fingerprint is lost or left behind: after every round, on every path and every exception, the
-- outstanding fingerprints are those of the queued events.
use mathlib.Core.Path.{subst}
use doxx.Base.{
  ℕ, zero, suc, ◌+◌, ◌≡◌, refl, Bool, true, false, not, ◌&&◌, Option, none, some, List, [], ◌∷◌,
  ◌++◌, arith, length, is_empty, ltb, ◌==◌, if◌then◌else◌, if_cases, sym,
}
use doxx.Batch.{
  SyncEvent, add_event, mark_flushed, pop_flush_batch_with_waits, should_flush, has_work,
}
use doxx.Batch.Counts.{Fp, count_fp, count_fp-append}
use doxx.Batch.Exact.{IsExact, release-IsExact, add-IsExact, flush-IsExact}
use doxx.Crm.{CrmBatchApplyResult, summarize_batch_result}
use doxx.Recency.{get, put}
use doxx.Recency.Journal.{or_zero}
use doxx.Recency.Bridge.{should_skip_event}
use doxx.Recency.Registry.{should_skip}
use doxx.Sync.{
  Settings, Pipeline, World, Sent, answered, malformed_bare, malformed, transport_error,
  unexpected_error,
}
use doxx.Sync.Rounds.{
  Attempts, count_attempts, drop_each, finalize_batch_results, settle_sent, start_batch,
  execute_batch_send, send_popped, flush_one_round, add_and_flush, process_item, close_rounds,
}
use doxx.Sync.Held.{IsHeld, IsExact-of, hold, release_each-IsHeld, apply_each-IsHeld}

pub is_empty-eq {ℓ} : {A : Type ℓ} (xs : List A) → is_empty xs ≡ true → xs ≡ []
is_empty-eq [] h = refl
is_empty-eq (x ∷ xs) h = absurd (ground arith)

module _ (world : World) (settings : Settings) where
  pub drop_each-IsHeld :
      (dropped es : List SyncEvent) (p : Pipeline)
      → IsHeld p (dropped ++ es)
      → IsHeld (drop_each world settings dropped p) es
  drop_each-IsHeld [] es p h = h
  drop_each-IsHeld (e ∷ dropped) es p h = drop_each-IsHeld dropped es _ (
      hold _ (dropped ++ es)
        (release-IsExact p.coordinator e (dropped ++ es) (IsExact-of p (e ∷ (dropped ++ es)) h)))

  -- Each event of a batch is either sent or dropped.
  pub count_attempts-split :
      (fp : Fp) (max_attempts : ℕ) (batch : List SyncEvent) (attempts : Attempts)
      → let r = count_attempts max_attempts batch attempts in
        count_fp fp (r.1 ++ r.0) ≡ count_fp fp batch
  unfolding count_attempts
  count_attempts-split fp max_attempts [] attempts = refl
  count_attempts-split fp max_attempts (ev ∷ batch) attempts =
      let nxt = or_zero (get ev.event_id attempts) + 1 in
      let over = ltb max_attempts nxt in
      let attempts' = if over then attempts else put ev.event_id nxt attempts in
      let rest = count_attempts-split fp max_attempts batch attempts' in
      let r = count_attempts max_attempts batch attempts' in
      let Splits : List SyncEvent × List SyncEvent × Attempts → Type 0 =
        λ s. count_fp fp (s.1 ++ s.0) ≡ count_fp fp (ev ∷ batch) in
      if_cases Splits over (λ t. omega (arith, rest))
        (λ f. omega (arith, rest, count_fp-append fp r.1 r.0, count_fp-append fp r.1 (ev ∷ r.0)))

  finalize-IsHeld :
      (now : ℕ) (es : List SyncEvent) (batch_res : CrmBatchApplyResult) (p : Pipeline)
      → IsHeld p es
      → IsHeld (finalize_batch_results world settings now es batch_res p).0 []
  unfolding finalize_batch_results
  finalize-IsHeld now es batch_res p h =
      let Holds : Pipeline × Bool → Type 0 = λ r. IsHeld r.0 [] in
      let same = length batch_res.items == length es in
      let any_fail = ltb 0 (summarize_batch_result batch_res).failed in
      let again : (q : Pipeline) → q.coordinator ≡ p.coordinator → IsHeld q es =
        λ q eq. hold q es (subst (λ c. IsExact c es) (sym eq) (IsExact-of p es h)) in
      if_cases Holds (not same) (λ t. release_each-IsHeld world settings es _ (again _ refl))
        (λ matches.
          let len : length batch_res.items ≡ length es = ground arith in
          if_cases Holds (not settings.allow_partial_batch_success && any_fail)
            (λ t. release_each-IsHeld world settings es _ (again _ refl))
            (λ f. apply_each-IsHeld world settings now es batch_res.items _ len (again _ refl)))

  settle_sent-IsHeld :
      (now : ℕ) (es : List SyncEvent) (sent : Sent) (p : Pipeline)
      → IsHeld p es
      → IsHeld (settle_sent world settings now es sent p).0 []
  unfolding settle_sent
  settle_sent-IsHeld now es (answered batch_res) p h = finalize-IsHeld now es batch_res p h
  settle_sent-IsHeld now es malformed_bare p h =
      release_each-IsHeld world settings es _ (hold _ es (IsExact-of p es h))
  settle_sent-IsHeld now es (malformed batch_res) p h =
      let Holds : Pipeline × Bool → Type 0 = λ r. IsHeld r.0 [] in
      let same = length batch_res.items == length es in
      if_cases Holds settings.stop_on_malformed_response
        (λ t. release_each-IsHeld world settings es _ (hold _ es (IsExact-of p es h)))
        (λ f.
          if_cases Holds (not same)
            (λ t. release_each-IsHeld world settings es _ (hold _ es (IsExact-of p es h)))
            (λ t. finalize-IsHeld now es batch_res _ (hold _ es (IsExact-of p es h))))
  settle_sent-IsHeld now es transport_error p h =
      release_each-IsHeld world settings es _ (hold _ es (IsExact-of p es h))
  settle_sent-IsHeld now es unexpected_error p h =
      release_each-IsHeld world settings es _ (hold _ es (IsExact-of p es h))

  send_popped-IsHeld :
      (now : ℕ) (batch : List SyncEvent) (p : Pipeline)
      → IsHeld p batch
      → IsHeld (send_popped world settings now batch p).0 []
  unfolding send_popped execute_batch_send start_batch mark_flushed
  send_popped-IsHeld now batch p h =
      let Holds : Pipeline × Bool → Type 0 = λ r. IsHeld r.0 [] in
      let r = count_attempts settings.max_event_attempts batch p.attempts in
      let counted : Pipeline = record p { attempts = r.2 } in
      let in_hand : IsHeld counted (r.1 ++ r.0) = hold counted (r.1 ++ r.0) (λ fp. omega (
        arith,
        IsExact-of p batch h fp,
        count_attempts-split fp settings.max_event_attempts batch p.attempts,
      )) in
      let ready = drop_each-IsHeld r.1 r.0 counted in_hand in
      let dropped = drop_each world settings r.1 counted in
      if_cases Holds (is_empty r.0)
        (λ none_left. subst (λ es. IsHeld dropped es) (is_empty-eq r.0 none_left) ready)
        (λ f.
          settle_sent-IsHeld now r.0 (world.send_batch_events (dropped.batch_seq + 1) r.0) _
            (hold _ r.0 (IsExact-of dropped r.0 ready)))

  flush_one_round-IsHeld :
      (now : ℕ) (deferred : Bool) (p : Pipeline)
      → IsHeld p []
      → IsHeld (flush_one_round world settings now deferred p).0 []
  unfolding flush_one_round
  flush_one_round-IsHeld now deferred p h =
      let Holds : Pipeline × Bool → Type 0 = λ r. IsHeld r.0 [] in
      let r =
        pop_flush_batch_with_waits settings.batch_size settings.max_retryable_per_flush now
          p.coordinator in
      let popped =
        flush-IsExact settings.batch_size settings.max_retryable_per_flush now p.coordinator
          (IsExact-of p [] h) in
      if_cases Holds deferred (λ t. h)
        (λ f.
          if_cases Holds (is_empty r.0)
            (λ none_. hold _ [] (subst (λ es. IsExact r.2 es) (is_empty-eq r.0 none_) popped))
            (λ some_. send_popped-IsHeld now r.0 _ (hold _ r.0 popped)))

  -- A round of the pipeline, whatever the transport does and whether or not it raises, leaves no
  -- event in hand: the outstanding fingerprints are those of the queued events, each once.
  pub flush_one_round-IsExact :
      (now : ℕ) (deferred : Bool) (p : Pipeline)
      → IsExact p.coordinator []
      → IsExact (flush_one_round world settings now deferred p).0.coordinator []
  flush_one_round-IsExact now deferred p h =
      IsExact-of _ [] (flush_one_round-IsHeld now deferred p (hold p [] h))

  pub process_item-IsHeld :
      (now : ℕ) (deferred : Bool) (event : Option SyncEvent) (p : Pipeline)
      → IsHeld p []
      → IsHeld (process_item world settings now deferred event p).0 []
  unfolding process_item add_and_flush
  process_item-IsHeld now deferred none p h = hold _ [] (IsExact-of p [] h)
  process_item-IsHeld now deferred (some event) p h =
      let Holds : Pipeline × Bool → Type 0 = λ r. IsHeld r.0 [] in
      let same = IsExact-of p [] h in
      let r = add_event now event p.coordinator in
      let queued_ = add-IsExact now event p.coordinator [] same in
      let skip =
        should_skip_event settings.identity event.entity_key event.payload_hash p.identity_bridge in
      let known =
        should_skip settings.sync_dedupe_in_memory event.entity_key event.payload_hash p.registry in
      if_cases Holds skip (λ t. hold _ [] same)
        (λ f.
          if_cases Holds known (λ t. hold _ [] same)
            (λ new.
              if_cases Holds (not r.1) (λ t. hold _ [] same)
                (λ added.
                  if_cases Holds
                    (should_flush now settings.buffer_flush_seconds settings.batch_size r.0)
                    (λ t. flush_one_round-IsHeld now deferred _ (hold _ [] queued_))
                    (λ f'. hold _ [] queued_))))

  pub close_rounds-IsHeld :
      (clock : ℕ → ℕ) (limit : ℕ) (p : Pipeline)
      → IsHeld p []
      → IsHeld (close_rounds world settings clock limit p).0 []
  unfolding close_rounds
  close_rounds-IsHeld clock zero p h = h
  close_rounds-IsHeld clock (suc limit) p h =
      let Holds : Pipeline × Bool → Type 0 = λ r. IsHeld r.0 [] in
      let r = flush_one_round world settings (clock limit) false p in
      let next = flush_one_round-IsHeld (clock limit) false p h in
      if_cases Holds (not (has_work p.coordinator)) (λ t. h)
        (λ f. if_cases Holds r.1 (λ t. next) (λ f'. close_rounds-IsHeld clock limit r.0 next))
