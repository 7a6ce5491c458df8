-- ===== src/Recency/Delivered.antt =====
-- The registry as a memory of what was delivered: it stands for the set of the delivered pairs, of
-- which it may forget the oldest.
use doxx.Base.{
  ℕ, suc, ◌≤◌, ◌≡◌, ◌⊎◌, refl, ap, sym, ◌∙◌, String, Bool, true, ◌||◌, Option, List, [], ◌∷◌, ◌++◌,
  map, arith, length, length-append, ◌==◌, Bool-cases, inl, inr,
}
use doxx.Batch.{mem_fp, discard, same_fp}
use doxx.Batch.Counts.{Fp, mem_fp-discard}
use doxx.Recency.{trim, trim_loop}
use doxx.Recency.Laws.{trim_idem, trim_loop-fits}
use doxx.Recency.Registry.{
  Ids, Registry, should_skip, remember_payload, remember_crm_ids, sent_pairs-remember_crm_ids,
  sent_pairs-remember_payload,
}

-- A delivery, with the ids and the action of its answer.
pub record Delivery : Type 0 where
  pub entity_key : String
  pub payload_hash : String
  pub ids : Ids
  pub action : Option String

abbrev pub pair_of : Delivery → Fp
pair_of d = (d.entity_key, d.payload_hash)

-- What a success leaves in the registry.
abbrev pub deliver : ℕ → Delivery → Registry → Registry
deliver max_n d r =
    remember_crm_ids max_n d.entity_key d.ids d.action
      (remember_payload max_n d.entity_key d.payload_hash r)

abbrev pub empty_registry : Registry
empty_registry = record {
  payload_hashes_by_entity_key = [];
  sent_pairs = [];
  crm_ids_by_entity_key = [];
  actions_by_entity_key = [];
}

-- The registry after the deliveries of a run, the latest first.
abbrev pub registry_after : ℕ → List Delivery → Registry
registry_after max_n [] = empty_registry
registry_after max_n (d ∷ earlier) = deliver max_n d (registry_after max_n earlier)

-- The abstract view: whether a pair was ever delivered.
abbrev pub was_delivered : Fp → List Delivery → Bool
was_delivered p ds = mem_fp p (map pair_of ds)

sent_pairs-deliver :
    (max_n : ℕ) (d : Delivery) (r : Registry)
    → (deliver max_n d r).sent_pairs
      ≡ trim max_n (discard (pair_of d) r.sent_pairs ++ (pair_of d ∷ []))
sent_pairs-deliver max_n d r =
    let paid = remember_payload max_n d.entity_key d.payload_hash r in
    sent_pairs-remember_crm_ids max_n d.entity_key d.ids d.action paid
    ∙ ap (trim max_n) (sent_pairs-remember_payload max_n d.entity_key d.payload_hash r)
    ∙ trim_idem max_n (discard (pair_of d) r.sent_pairs ++ (pair_of d ∷ []))

mem_fp-snoc : (p q : Fp) (l : List Fp) → mem_fp p (l ++ (q ∷ [])) ≡ (same_fp p q || mem_fp p l)
mem_fp-snoc p q [] = refl
mem_fp-snoc p q (x ∷ l) = ground (arith, mem_fp-snoc p q l)

-- Moving a pair to the end is adding it to the set.
mem_fp-move :
    (p q : Fp) (l : List Fp) → mem_fp p (discard q l ++ (q ∷ [])) ≡ (same_fp p q || mem_fp p l)
mem_fp-move p q l = elim (Bool-cases (same_fp p q)) [
  | inl same ↦ rw same (mem_fp-snoc p q (discard q l) ∙ ground (arith, same))
  | inr other ↦
      mem_fp-snoc p q (discard q l) ∙ ap (λ b. same_fp p q || b) (mem_fp-discard p q l other)
]

length-discard : (q : Fp) (l : List Fp) → length (discard q l) ≤ length l
length-discard q [] = omega arith
length-discard q (x ∷ l) = ground (arith, length-discard q l)

trim_loop-mem : (n : ℕ) (p : Fp) (l : List Fp) → mem_fp p (trim_loop n l) ≡ true → mem_fp p l ≡ true
unfolding trim_loop
trim_loop-mem n p [] h = h
trim_loop-mem n p (x ∷ l) h = ground (arith, h, trim_loop-mem n p l)

trim-mem : (n : ℕ) (p : Fp) (l : List Fp) → mem_fp p (trim n l) ≡ true → mem_fp p l ≡ true
unfolding trim
trim-mem n p l h = ground (arith, h, trim_loop-mem n p l)

-- A trim that has room changes nothing.
trim-fits : (n : ℕ) (l : List Fp) → (n ≡ 0) ⊎ (length l ≤ n) → trim n l ≡ l
unfolding trim
trim-fits n l (inl z) = let off : (n == 0) ≡ true = ground arith in rw off refl
trim-fits n l (inr room) = elim (Bool-cases (n == 0)) [
  | inl off ↦ rw off refl
  | inr on ↦ rw on (trim_loop-fits n l room)
]

sound :
    (max_n : ℕ) (p : Fp) (ds : List Delivery)
    → mem_fp p (registry_after max_n ds).sent_pairs ≡ true
    → was_delivered p ds ≡ true
sound max_n p [] h = h
sound max_n p (d ∷ ds) h =
    let r = registry_after max_n ds in
    let moved = discard (pair_of d) r.sent_pairs ++ (pair_of d ∷ []) in
    let there : mem_fp p moved ≡ true =
      trim-mem max_n p moved (ap (mem_fp p) (sym (sent_pairs-deliver max_n d r)) ∙ h) in
    ground (arith, there, mem_fp-move p (pair_of d) r.sent_pairs, sound max_n p ds)

-- As long as there is room for all deliveries nothing is forgotten.
complete :
    (max_n : ℕ) (p : Fp) (ds : List Delivery)
    → (max_n ≡ 0) ⊎ (length ds ≤ max_n)
    → (mem_fp p (registry_after max_n ds).sent_pairs ≡ was_delivered p ds)
      × (length (registry_after max_n ds).sent_pairs ≤ length ds)
complete max_n p [] room = (refl, omega arith)
complete max_n p (d ∷ ds) room =
    let r = registry_after max_n ds in
    let moved = discard (pair_of d) r.sent_pairs ++ (pair_of d ∷ []) in
    let (same, short) = complete max_n p ds (less room) in
    let len : length moved ≤ suc (length ds) = omega (
      arith,
      short,
      length-append (discard (pair_of d) r.sent_pairs) (pair_of d ∷ []),
      length-discard (pair_of d) r.sent_pairs,
    ) in
    let all = sent_pairs-deliver max_n d r ∙ trim-fits max_n moved (fits moved len room) in
    (
      ap (mem_fp p) all
          ∙ mem_fp-move p (pair_of d) r.sent_pairs
          ∙ ap (λ b. same_fp p (pair_of d) || b) same,
      omega (arith, ap length all, len),
    )
  where
    less : (max_n ≡ 0) ⊎ (suc (length ds) ≤ max_n) → (max_n ≡ 0) ⊎ (length ds ≤ max_n)
    less (inl z) = inl z
    less (inr h) = inr (omega (arith, h))

    fits :
        (l : List Fp)
        → length l ≤ suc (length ds)
        → (max_n ≡ 0) ⊎ (suc (length ds) ≤ max_n)
        → (max_n ≡ 0) ⊎ (length l ≤ max_n)
    fits l h (inl z) = inl z
    fits l h (inr k) = inr (omega (arith, h, k))

-- The registry refines the set of delivered pairs: where deduplication is on it skips only what was
-- delivered, and where its limit is off or leaves room for all deliveries it skips exactly that.
pub should_skip-refines :
    (max_n : ℕ) (entity_key payload_hash : String) (ds : List Delivery)
    → let skips = should_skip true entity_key payload_hash (registry_after max_n ds) in
      (skips ≡ true → was_delivered (entity_key, payload_hash) ds ≡ true)
      × ((max_n ≡ 0) ⊎ (length ds ≤ max_n) → skips ≡ was_delivered (entity_key, payload_hash) ds)
unfolding should_skip
should_skip-refines max_n entity_key payload_hash ds = (
  sound max_n (entity_key, payload_hash) ds,
  λ room. (complete max_n (entity_key, payload_hash) ds room).0,
)
