-- ===== src/Batch/Counts.antt =====
-- How many events have a fingerprint, and what a set of fingerprints keeps.
use doxx.Base.{
  ℕ, ◌+◌, ◌≤◌, ◌≡◌, refl, true, false, List, [], ◌∷◌, ◌++◌, arith, take, drop, String,
  take-append-drop, if◌then◌else◌, Bool-cases, inl, inr, eq_iff, ap, sym, ◌∙◌,
}
use doxx.Batch.{
  SyncEvent, Queued, Coordinator, fingerprint, same_fp, mem_fp, discard, enqueue_all, discard_all,
  events_of,
}

abbrev pub Fp : Type 0
Fp = String × String

-- How many events have a fingerprint.
abbrev pub count_fp : Fp → List SyncEvent → ℕ
count_fp fp [] = 0
count_fp fp (e ∷ es) = (if same_fp fp (fingerprint e) then 1 else 0) + count_fp fp es

abbrev pub held : Fp → Coordinator → ℕ
held fp c = if mem_fp fp c.outstanding then 1 else 0

module _ (fp : Fp) where
  pub count_fp-append :
      (xs ys : List SyncEvent) → count_fp fp (xs ++ ys) ≡ count_fp fp xs + count_fp fp ys
  count_fp-append [] ys = omega arith
  count_fp-append (x ∷ xs) ys = omega (arith, count_fp-append xs ys)

  pub events_of-append :
      (xs ys : List Queued)
      → count_fp fp (events_of (xs ++ ys)) ≡ count_fp fp (events_of xs) + count_fp fp (events_of ys)
  events_of-append [] ys = omega arith
  events_of-append (x ∷ xs) ys = omega (arith, events_of-append xs ys)

  pub count_fp-split :
      (n : ℕ) (qs : List Queued)
      → count_fp fp (events_of (take n qs)) + count_fp fp (events_of (drop n qs))
        ≡ count_fp fp (events_of qs)
  count_fp-split n qs =
      sym (events_of-append (take n qs) (drop n qs))
      ∙ ap (λ (l : List Queued). count_fp fp (events_of l)) (take-append-drop n qs)

  pub enqueue_all-count :
      (now : ℕ) (es : List SyncEvent)
      → count_fp fp (events_of (enqueue_all now es)) ≡ count_fp fp es
  enqueue_all-count now [] = refl
  enqueue_all-count now (e ∷ es) = omega (arith, enqueue_all-count now es)

pub same_fp-eq : (p q : Fp) → same_fp p q ≡ true → p ≡ q
same_fp-eq (a, b) (c, d) h =
    let first : a ≡ c = ground (arith, eq_iff a c, eq_iff b d) in
    let other : b ≡ d = ground (arith, eq_iff a c, eq_iff b d) in rw (first, other)

-- Discarding another fingerprint keeps a fingerprint.
pub mem_fp-discard :
    (fp x : Fp) (l : List Fp) → same_fp fp x ≡ false → mem_fp fp (discard x l) ≡ mem_fp fp l
mem_fp-discard fp x [] h = refl
mem_fp-discard fp x (y ∷ l) h = elim (Bool-cases (same_fp x y)) [
  | inl e ↦
      let same : x ≡ y = same_fp-eq x y e in
      let other : same_fp fp y ≡ false = cc (same, h) in rw (e, other, mem_fp-discard fp x l h)
  | inr e ↦ rw (e, mem_fp-discard fp x l h)
]

pub mem_fp-discard_all :
    (fp : Fp) (es : List SyncEvent) (l : List Fp)
    → count_fp fp es ≡ 0
    → mem_fp fp (discard_all es l) ≡ mem_fp fp l
mem_fp-discard_all fp [] l h = refl
mem_fp-discard_all fp (e ∷ es) l h =
    let other : same_fp fp (fingerprint e) ≡ false = ground arith in
    let none : count_fp fp es ≡ 0 = omega (arith, h) in
    mem_fp-discard_all fp es (discard (fingerprint e) l) none
    ∙ mem_fp-discard fp (fingerprint e) l other

pub held-le : (fp : Fp) (c : Coordinator) → held fp c ≤ 1
held-le fp c = ground arith
