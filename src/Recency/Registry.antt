-- ===== src/Recency/Registry.antt =====
-- `RuntimeSyncRegistry` of infrastructure/sync/runtime_registry.py: what was delivered in this run.
use doxx.Base.{
  ℕ, ◌≤◌, ◌≡◌, refl, ap, sym, ◌∙◌, String, Bool, true, false, not, Option, none, some, List, [],
  ◌∷◌, ◌++◌, arith, length, ltb, ◌==◌, if◌then◌else◌, Bool-cases, inl, inr,
}
use doxx.Batch.Exact.{same_fp_refl}
use doxx.Batch.{mem_fp, discard}
use doxx.Recency.{get, forget, put, trim_loop, trim}
use doxx.Recency.Laws.{length-trim_loop, put_trim_lem, trim_idem}

abbrev pub Ids : Type 0
Ids = Option String × Option String

pub record Registry : Type 0 where
  pub payload_hashes_by_entity_key : List (String × String)
  pub sent_pairs : List (String × String)
  pub crm_ids_by_entity_key : List (String × Ids)
  pub actions_by_entity_key : List (String × Option String)

unfoldable pub should_skip : Bool → String → String → Registry → Bool
should_skip dedupe_in_memory entity_key payload_hash r =
    if not dedupe_in_memory then false else mem_fp (entity_key, payload_hash) r.sent_pairs

-- The second loop of `trim_if_needed`: an action goes with its ids.
unfoldable pub trim_ids :
    ℕ
    → List (String × Ids)
    → List (String × Option String)
    → List (String × Ids) × List (String × Option String)
trim_ids max_n [] actions = ([], actions)
trim_ids max_n ((k, ids) ∷ d) actions =
    let later = trim_ids max_n d (forget k actions) in
    if ltb max_n (length ((k, ids) ∷ d)) then later else ((k, ids) ∷ d, actions)

unfoldable pub trim_if_needed : ℕ → Registry → Registry
trim_if_needed max_n r =
    let (ids, actions) = trim_ids max_n r.crm_ids_by_entity_key r.actions_by_entity_key in
    if max_n == 0 then r else record {
      payload_hashes_by_entity_key = trim max_n r.payload_hashes_by_entity_key;
      sent_pairs = trim max_n r.sent_pairs;
      crm_ids_by_entity_key = ids;
      actions_by_entity_key = actions;
    }

unfoldable pub remember_payload : ℕ → String → String → Registry → Registry
remember_payload max_n entity_key payload_hash r = trim_if_needed max_n (record r {
  sent_pairs = discard (entity_key, payload_hash) r.sent_pairs ++ ((entity_key, payload_hash) ∷ []);
  payload_hashes_by_entity_key = put entity_key payload_hash r.payload_hashes_by_entity_key;
})

unfoldable pub remember_crm_ids : ℕ → String → Ids → Option String → Registry → Registry
remember_crm_ids max_n entity_key ids action r = trim_if_needed max_n (record r {
  crm_ids_by_entity_key = put entity_key ids r.crm_ids_by_entity_key;
  actions_by_entity_key = put entity_key action r.actions_by_entity_key;
})

abbrev pub or_no_ids : Option Ids → Ids
or_no_ids none = (none, none)
or_no_ids (some ids) = ids

unfoldable pub get_crm_ids : String → Registry → Ids
get_crm_ids entity_key r = or_no_ids (get entity_key r.crm_ids_by_entity_key)

mem_fp-append : (p : String × String) (l : List (String × String)) → mem_fp p (l ++ (p ∷ [])) ≡ true
mem_fp-append p [] = rw (same_fp_refl p) refl
mem_fp-append p (x ∷ l) = ground (arith, mem_fp-append p l)

-- The youngest pair stays.
mem_fp-trim_loop :
    (n : ℕ) (p : String × String) (l : List (String × String))
    → 1 ≤ n
    → mem_fp p (trim_loop n (l ++ (p ∷ []))) ≡ true
unfolding trim_loop
mem_fp-trim_loop n p [] one =
    let fits : ltb n 1 ≡ false = ground arith in rw (fits, same_fp_refl p) refl
mem_fp-trim_loop n p (x ∷ l) one = elim (Bool-cases (ltb n (length (x ∷ l ++ (p ∷ []))))) [
  | inl t ↦ rw t (mem_fp-trim_loop n p l one)
  | inr f ↦ rw f (mem_fp-append p (x ∷ l))
]

trim_ids_lem :
    (n : ℕ) (d : List (String × Ids)) (actions : List (String × Option String))
    → (trim_ids n d actions).0 ≡ trim_loop n d
unfolding trim_ids trim_loop
trim_ids_lem n [] actions = refl
trim_ids_lem n ((k, ids) ∷ d) actions = elim (Bool-cases (ltb n (length ((k, ids) ∷ d)))) [
  | inl t ↦ rw t (trim_ids_lem n d (forget k actions))
  | inr f ↦ rw f refl
]

-- After a delivery the pair is skipped wherever deduplication is on, and a positive limit is kept
-- by both memories.
pub should_skip-remember_payload :
    (max_n : ℕ) (entity_key payload_hash : String) (r : Registry)
    → let r' = remember_payload max_n entity_key payload_hash r in
      (should_skip true entity_key payload_hash r' ≡ true)
      × (1 ≤ max_n → length r'.sent_pairs ≤ max_n)
      × (1 ≤ max_n → length r'.payload_hashes_by_entity_key ≤ max_n)
unfolding should_skip remember_payload trim_if_needed trim
should_skip-remember_payload max_n entity_key payload_hash r =
    let p : String × String = (entity_key, payload_hash) in
    let kept = discard p r.sent_pairs in
    elim (Bool-cases (max_n == 0)) [
      | inl z ↦ rw z (
        mem_fp-append p kept,
        λ one. absurd (ground (arith, one, z)),
        λ one. absurd (ground (arith, one, z)),
      )
      | inr s ↦
          let one : 1 ≤ max_n = ground arith in
          rw s (
            mem_fp-trim_loop max_n p kept one,
            λ h. length-trim_loop max_n (kept ++ (p ∷ [])),
            λ h.
                length-trim_loop max_n (put entity_key payload_hash r.payload_hashes_by_entity_key),
          )
    ]

remember_crm_ids_lem :
    (max_n : ℕ) (entity_key : String) (ids : Ids) (action : Option String) (r : Registry)
    → (remember_crm_ids max_n entity_key ids action r).crm_ids_by_entity_key
      ≡ trim max_n (put entity_key ids r.crm_ids_by_entity_key)
unfolding remember_crm_ids trim_if_needed trim
remember_crm_ids_lem max_n entity_key ids action r = elim (Bool-cases (max_n == 0)) [
  | inl z ↦ rw z refl
  | inr s ↦ rw s (
      trim_ids_lem max_n (put entity_key ids r.crm_ids_by_entity_key)
        (put entity_key action r.actions_by_entity_key))
]

-- The ids that were remembered last for an entity are found, and a positive limit on them is kept.
get_crm_ids-remember_crm_ids :
    (max_n : ℕ) (entity_key : String) (ids : Ids) (action : Option String) (r : Registry)
    → let r' = remember_crm_ids max_n entity_key ids action r in
      (get_crm_ids entity_key r' ≡ ids) × (1 ≤ max_n → length r'.crm_ids_by_entity_key ≤ max_n)
unfolding get_crm_ids
get_crm_ids-remember_crm_ids max_n entity_key ids action r =
    let (found, bound) = put_trim_lem max_n entity_key ids r.crm_ids_by_entity_key in
    rw (remember_crm_ids_lem max_n entity_key ids action r) (ap or_no_ids found, bound)

pub sent_pairs-remember_crm_ids :
    (max_n : ℕ) (k : String) (ids : Ids) (action : Option String) (q : Registry)
    → (remember_crm_ids max_n k ids action q).sent_pairs ≡ trim max_n q.sent_pairs
unfolding remember_crm_ids trim_if_needed trim
sent_pairs-remember_crm_ids max_n k ids action q = elim (Bool-cases (max_n == 0)) [
  | inl z ↦ rw z refl
  | inr s ↦ rw s refl
]

pub sent_pairs-remember_payload :
    (max_n : ℕ) (entity_key payload_hash : String) (r : Registry)
    → (remember_payload max_n entity_key payload_hash r).sent_pairs
      ≡ trim max_n
          (discard (entity_key, payload_hash) r.sent_pairs ++ ((entity_key, payload_hash) ∷ []))
unfolding remember_payload trim_if_needed trim
sent_pairs-remember_payload max_n entity_key payload_hash r = elim (Bool-cases (max_n == 0)) [
  | inl z ↦ rw z refl
  | inr s ↦ rw s refl
]

-- Remembering the ids of a delivery as well drops nothing more of what was delivered.
pub should_skip-remember_crm_ids :
    (max_n : ℕ) (dedupe : Bool) (k entity_key payload_hash : String) (ids : Ids)
    (action : Option String) (r : Registry)
    → should_skip dedupe entity_key payload_hash
        (remember_crm_ids max_n k ids action (remember_payload max_n entity_key payload_hash r))
      ≡ should_skip dedupe entity_key payload_hash
          (remember_payload max_n entity_key payload_hash r)
unfolding should_skip
should_skip-remember_crm_ids max_n dedupe k entity_key payload_hash ids action r =
    let q = remember_payload max_n entity_key payload_hash r in
    let sent = sent_pairs-remember_payload max_n entity_key payload_hash r in
    let kept : (remember_crm_ids max_n k ids action q).sent_pairs ≡ q.sent_pairs =
      sent_pairs-remember_crm_ids max_n k ids action q
      ∙ ap (trim max_n) sent
      ∙ trim_idem max_n
          (discard (entity_key, payload_hash) r.sent_pairs ++ ((entity_key, payload_hash) ∷ []))
      ∙ sym sent in
    rw kept refl
