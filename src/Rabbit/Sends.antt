-- ===== src/Rabbit/Sends.antt =====
-- What is handed to the broker: at most two copies of an event, and only of one that satisfies the
-- contract.
use mathlib.Core.Path.{subst}
use doxx.Base.{
  ℕ, ◌+◌, ◌≤◌, ◌≡◌, refl, sym, ◌∙◌, Bool, true, false, Option, none, some, List, [], ◌∷◌, ◌++◌,
  arith, is_empty, if◌then◌else◌, if_cases, Bool-cases, inl, inr, All, All-append, length,
  length-append, append_assoc,
}
use doxx.Fingerprint.{UrlSplit}
use doxx.Store.Rows.{ScraperProductEvent}
use doxx.Contract.{contract_errors}
use doxx.Rabbit.{
  Raised, is_recoverable, Transport, Aio, Step, after, invalidate_transport, connect, hand_over,
  publish_once, or_again, publish,
}
use doxx.Rabbit.Silent.{Keeps, keeps, handed_of, connect-IsSilent, invalidate_transport-handed}

is_empty-length : (l : List ScraperProductEvent) → is_empty l ≡ true → length l ≡ 0
is_empty-length [] h = refl
is_empty-length (x ∷ l) h = absurd (ground arith)

nonempty-length : (l : List ScraperProductEvent) → is_empty l ≡ false → 1 ≤ length l
nonempty-length [] h = absurd (ground arith)
nonempty-length (x ∷ l) h = omega arith

-- What is handed over on top of the earlier messages: copies of the event, none unless it satisfies
-- the contract, and at least one where no exception is raised.
abbrev pub IsHanded :
    UrlSplit
    → ScraperProductEvent
    → List ScraperProductEvent
    → List ScraperProductEvent
    → Option Raised × Transport
    → Type 0
IsHanded urlsplit event new before (result, t) =
    (t.handed ≡ new ++ before)
    × All (λ e. e ≡ event) new
    × (1 ≤ length new → is_empty (contract_errors urlsplit event) ≡ true)
    × (result ≡ none → 1 ≤ length new)

-- Handing over at most a number of messages.
abbrev pub HandsOver :
    UrlSplit
    → ScraperProductEvent
    → ℕ
    → List ScraperProductEvent
    → Option Raised × Transport
    → Type 0
HandsOver urlsplit event most before r =
    (new : List ScraperProductEvent) × (length new ≤ most) × IsHanded urlsplit event new before r

module _ (urlsplit : UrlSplit) (event : ScraperProductEvent) where
  -- The same, from an earlier point on that handed over some messages as well.
  HandsOver-append :
      (m n : ℕ) (old before : List ScraperProductEvent) (r : Option Raised × Transport)
      → (length old ≤ m)
        × All (λ e. e ≡ event) old
        × (1 ≤ length old → is_empty (contract_errors urlsplit event) ≡ true)
      → HandsOver urlsplit event n (old ++ before) r
      → HandsOver urlsplit event (m + n) before r
  HandsOver-append m n old before (result, t) (short, same, fine)
        (new, few, (eq, copies, ok, some_)) =
      let len = length-append new old in
      (
        new ++ old,
        omega (arith, len, short, few),
        (
          eq ∙ sym (append_assoc new old before),
          All-append (λ e. e ≡ event) new old copies same,
          λ h. elim (Bool-cases (is_empty new)) [
            | inl e ↦ fine (ground (arith, len, h, is_empty-length new e))
            | inr f ↦ ok (nonempty-length new f)
          ],
          λ h. omega (arith, len, some_ h),
        ),
      )

  module _ (aio : Aio) (declare_topology : Bool) where
    hand_over-HandsOver :
        (t : Transport)
        → HandsOver urlsplit event 1 t.handed (hand_over aio urlsplit declare_topology event t)
    unfolding hand_over
    hand_over-HandsOver t = elim (Bool-cases (is_empty (contract_errors urlsplit event))) [
      | inl fine ↦
          rw fine (event ∷ [], omega arith, (refl, (refl, tt), λ h. refl, λ h. omega arith))
      | inr bad ↦
          rw bad ([], omega arith, (refl, tt, λ h. absurd (omega (arith, h)), λ h. absurd (cc h)))
    ]

    after-HandsOver :
        (h : List ScraperProductEvent) (most : ℕ) (r : Option Raised × Transport) (next : Step)
        → Keeps h r
        → ((t : Transport) → HandsOver urlsplit event most t.handed (next t))
        → HandsOver urlsplit event most h (after r next)
    after-HandsOver h most (none, t) next same each =
        subst (λ (l : List ScraperProductEvent). HandsOver urlsplit event most l (next t))
          (handed_of h (none, t) same) (each t)
    after-HandsOver h most (some e, t) next same each = (
      [],
      omega arith,
      (handed_of h (some e, t) same, tt, λ k. absurd (omega (arith, k)), λ k. absurd (cc k)),
    )

    publish_once-HandsOver :
        (t : Transport)
        → HandsOver urlsplit event 1 t.handed (publish_once aio urlsplit declare_topology event t)
    unfolding publish_once
    publish_once-HandsOver t =
        after-HandsOver t.handed 1
          (if t.exchange then (none, t) else connect aio urlsplit declare_topology t)
          (hand_over aio urlsplit declare_topology event)
          (if_cases (Keeps t.handed) t.exchange (λ there. keeps t.handed (none, t) refl)
            (λ gone. connect-IsSilent aio urlsplit declare_topology t))
          hand_over-HandsOver

    or_again-HandsOver :
        (before : List ScraperProductEvent) (r : Option Raised × Transport)
        → HandsOver urlsplit event 1 before r
        → HandsOver urlsplit event 2 before (or_again aio urlsplit declare_topology event r)
    or_again-HandsOver before (none, t) (new, few, rest) = (new, omega (arith, few), rest)
    or_again-HandsOver before (some e, t) (new, few, (eq, copies, ok, some_)) =
        let u = invalidate_transport aio urlsplit declare_topology t in
        let again =
          after (connect aio urlsplit declare_topology u)
            (publish_once aio urlsplit declare_topology event) in
        let second : HandsOver urlsplit event 1 (new ++ before) again =
          after-HandsOver (new ++ before) 1 _ _
            (keeps (new ++ before) _ (
              handed_of u.handed _ (connect-IsSilent aio urlsplit declare_topology u)
              ∙ invalidate_transport-handed aio urlsplit declare_topology t
              ∙ eq))
            publish_once-HandsOver in
        if_cases (HandsOver urlsplit event 2 before) (is_recoverable e)
          (λ y. HandsOver-append 1 1 new before again (few, copies, ok) second)
          (λ n. (new, omega (arith, few), (eq, copies, ok, λ h. absurd (cc h))))

    -- A publication hands the broker at most two copies of the event and nothing else, and none
    -- unless the event satisfies the contract; where it raises no exception it has handed the event
    -- over.
    pub publish-HandsOver :
        (t : Transport)
        → HandsOver urlsplit event 2 t.handed (publish aio urlsplit declare_topology event t)
    unfolding publish
    publish-HandsOver t = or_again-HandsOver t.handed _ (publish_once-HandsOver t)
