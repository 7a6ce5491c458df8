-- ===== src/Access/Spikes.antt =====
-- `BanSignalSpikeMonitor` of infrastructure/access/ban_signal_monitoring.py, for one store, domain
-- and bucket; times are milliseconds of the monotonic clock.
use mathlib.Core.Path.{subst, sym}
use doxx.Base.{
  ℕ, ◌+◌, ◌≤◌, ◌<◌, ◌≡◌, refl, ◌∙◌, ap, max, Bool, true, false, ◌&&◌, List, [], ◌∷◌, ◌++◌, length,
  All, arith, leb, ltb, ◌==◌, if◌then◌else◌, if_cases, Bool-cases, inl, inr, ◌||◌, length-append,
  All-append, Option, none, some,
}

-- The entries of `_events` and `_armed` under one key.
pub record Entry : Type 0 where
  pub queue : List ℕ
  pub armed : Bool

abbrev pub new_entry : Entry
new_entry = record { queue = []; armed = true }

-- The bucket of a status, if it is monitored.
pub data Bucket : Type 0 where
  http_403 http_429 http_5xx : Bucket

unfoldable pub status_bucket_for_http : ℕ → Option Bucket
status_bucket_for_http s =
    if s == 403
    then some http_403
    else if s == 429
    then some http_429
    else if leb 500 s && leb s 599
    then some http_5xx
    else none

module _ (threshold window : ℕ) where
  abbrev pub limit : ℕ
  limit = max 1 threshold

  -- `window_seconds` is at least a second.
  abbrev pub is_old : ℕ → ℕ → Bool
  is_old now t = ltb (t + max 1_000 window) now

  -- `while q and q[0] < cutoff: q.popleft()`
  unfoldable pub drop_old : ℕ → List ℕ → List ℕ
  drop_old now [] = []
  drop_old now (t ∷ q) = let rest = drop_old now q in if is_old now t then rest else t ∷ q

  -- The entry, whether there is a spike, and the number of events in the window.
  unfoldable pub record_http_status : ℕ → Entry → Entry × Bool × ℕ
  record_http_status now e =
      let q = drop_old now e.queue in
      let armed = ltb (length q) limit || e.armed in
      let count = length (q ++ now ∷ []) in
      if leb limit count && armed
      then (record { queue = q ++ now ∷ []; armed = false }, true, count)
      else (record { queue = q ++ now ∷ []; armed = armed }, false, count)

  -- The events of a history that are not too old.
  abbrev pub recent : ℕ → List ℕ → ℕ
  recent now [] = 0
  recent now (t ∷ history) = (if is_old now t then 0 else 1) + recent now history

  -- The time of the last event, all events, newest first, and the entry, as they are recorded by a
  -- clock that never goes back.
  pub data Recorded : ℕ → List ℕ → Entry → Type 0 where
    nothing : Recorded 0 [] new_entry
    recorded :
        {last : ℕ} {history : List ℕ} {e : Entry} (now : ℕ)
        → Recorded last history e
        → last ≤ now
        → Recorded now (now ∷ history) (record_http_status now e).0

  drop_old-drop_old :
      (before now : ℕ) (q : List ℕ)
      → before ≤ now
      → drop_old now (drop_old before q) ≡ drop_old now q
  unfolding drop_old
  drop_old-drop_old before now [] later = refl
  drop_old-drop_old before now (t ∷ q) later = elim (Bool-cases (is_old before t)) [
    | inl old ↦
        let older : is_old now t ≡ true = ground (arith, old, later) in
        rw (old, older) (drop_old-drop_old before now q later)
    | inr young ↦ rw young refl
  ]

  drop_old-snoc :
      (now t : ℕ) (q : List ℕ)
      → All (λ s. s ≤ t) q
      → length (drop_old now (q ++ t ∷ []))
        ≡ (if is_old now t then 0 else 1) + length (drop_old now q)
  unfolding drop_old
  drop_old-snoc now t [] early = ground arith
  drop_old-snoc now t (s ∷ q) (first, early) = elim (Bool-cases (is_old now s)) [
    | inl old ↦ rw old (drop_old-snoc now t q early)
    | inr young ↦
        let younger : is_old now t ≡ false = ground (arith, young, first) in
        rw (young, younger) (omega (arith, length-append q (t ∷ [])))
  ]

  drop_old-All :
      (bound now : ℕ) (q : List ℕ) → All (λ s. s ≤ bound) q → All (λ s. s ≤ bound) (drop_old now q)
  unfolding drop_old
  drop_old-All bound now [] early = tt
  drop_old-All bound now (t ∷ q) (first, early) =
      if_cases (All (λ s. s ≤ bound)) (is_old now t) (λ o. drop_old-All bound now q early)
        (λ y. (first, early))

  -- The queue of an entry: nothing of it is later than the last event, at any later time it has as
  -- many recent events as the history, and it is below the limit when the next event may alarm.
  IsWindow : ℕ → List ℕ → Entry → Type 0
  IsWindow last history e =
      All (λ s. s ≤ last) e.queue
      × ((now : ℕ) → last ≤ now → length (drop_old now e.queue) ≡ recent now history)
      × (e.armed ≡ true → length e.queue < limit)

  drop_old-shorter : (now : ℕ) (q : List ℕ) → length (drop_old now q) ≤ length q
  unfolding drop_old
  drop_old-shorter now [] = omega arith
  drop_old-shorter now (t ∷ q) = ground (arith, drop_old-shorter now q)

  All-later :
      (last now : ℕ) (q : List ℕ) → last ≤ now → All (λ s. s ≤ last) q → All (λ s. s ≤ now) q
  All-later last now [] later early = tt
  All-later last now (t ∷ q) later (first, early) =
      (omega (arith, first, later), All-later last now q later early)

  record-queue :
      (now : ℕ) (e : Entry) → (record_http_status now e).0.queue ≡ drop_old now e.queue ++ now ∷ []
  unfolding record_http_status
  record-queue now e = ground arith

  record-armed :
      (now : ℕ) (e : Entry)
      → (record_http_status now e).0.armed ≡ true
      → length (drop_old now e.queue ++ now ∷ []) < limit
  unfolding record_http_status
  record-armed now e armed = ground arith

  -- An alarm is armed exactly when the window is below the limit.
  record-alarm :
      (now : ℕ) (e : Entry)
      → (e.armed ≡ true → length e.queue < limit)
      → (record_http_status now e).1 ≡ (length (drop_old now e.queue) + 1 == limit)
  unfolding record_http_status
  record-alarm now e armed =
      let shorter = drop_old-shorter now e.queue in
      let longer = length-append (drop_old now e.queue) (now ∷ []) in
      ground (arith, shorter, longer, armed)

  record-count :
      (now : ℕ) (e : Entry)
      → (record_http_status now e).2 ≡ length (drop_old now e.queue ++ now ∷ [])
  unfolding record_http_status
  record-count now e = ground arith

  Recorded-IsWindow :
      {last : ℕ} {history : List ℕ} {e : Entry} → Recorded last history e → IsWindow last history e
  unfolding IsWindow drop_old
  Recorded-IsWindow nothing = (tt, λ now later. refl, λ armed. omega arith)
  Recorded-IsWindow (recorded {last} {history} {e} now before later) =
      let (early, counts, room) = Recorded-IsWindow before in
      let kept =
        All-later last now (drop_old now e.queue) later (drop_old-All last now e.queue early) in
      let here : now ≤ now = omega arith in
      let counted = λ (at : ℕ) (above : now ≤ at).
        let twice = ap length (drop_old-drop_old now at e.queue above) in
        let step = drop_old-snoc at now (drop_old now e.queue) kept in
        let old = counts at (omega (arith, later, above)) in step ∙ omega (arith, twice, old) in
      let P : List ℕ → Type 0 = λ q.
        All (λ s. s ≤ now) q
        × ((at : ℕ) → now ≤ at → length (drop_old at q) ≡ recent at (now ∷ history)) in
      let (early', counts') : P (record_http_status now e).0.queue =
        subst P (sym (record-queue now e))
          (All-append (λ s. s ≤ now) (drop_old now e.queue) (now ∷ []) kept (here, tt), counted) in
      (early', counts', λ armed. rw (record-queue now e) (record-armed now e armed))

  -- When the clock never goes back, the monitor counts, with the present one, exactly the events
  -- that are not older than its window, and it reports a spike exactly when their number reaches the
  -- threshold: never below it, and above it no second time.
  pub record_http_status_lem :
      {last : ℕ} {history : List ℕ} {e : Entry} (now : ℕ)
      → Recorded last history e
      → last ≤ now
      → let (e', spike, count) = record_http_status now e in
        (count ≡ recent now history + 1) × (spike ≡ (recent now history + 1 == max 1 threshold))
  unfolding IsWindow
  record_http_status_lem {last} {history} {e} now before later =
      let (early, counts, room) = Recorded-IsWindow before in
      let same = counts now later in
      (
        record-count now e ∙ omega (arith, length-append (drop_old now e.queue) (now ∷ []), same),
        record-alarm now e room ∙ ap (λ n. n + 1 == max 1 threshold) same,
      )
