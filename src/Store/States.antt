-- ===== src/Store/States.antt =====
-- The state that a product shows, under each statement that writes `publication_state`.
use doxx.Base.{
  ℕ, ◌≡◌, ◌≢◌, ap, Bool, Option, none, some, List, [], ◌∷◌, ◌++◌, arith, if◌then◌else◌, All,
}
use doxx.Table.{update_where, find}
use doxx.Store.Rows.{Status, RawProduct}
use doxx.Store.Valid.{state_of}

abbrev pub to_state : Status → Option Status → Option Status
to_state st none = none
to_state st (some _) = some st

-- An update of the rows whose ids pass `p`, which sets the state to `st` and keeps the ids.
module _ (p : ℕ → Bool) (f : RawProduct → RawProduct) (st : Status)
    (same_id : (q : RawProduct) → (f q).id ≡ q.id)
    (sets : (q : RawProduct) → (f q).publication_state ≡ st) where
  pub state_of-update :
      (i : ℕ) (qs : List RawProduct)
      → state_of i (update_where (λ q. p q.id) f qs)
        ≡ (if p i then to_state st (state_of i qs) else state_of i qs)
  state_of-update i [] = ground arith
  state_of-update i (q ∷ qs) =
      ground (arith, state_of-update i qs, same_id q, sets q, ap p {x = q.id} {y = i})

pub state_of-append :
    (i : ℕ) (qs : List RawProduct) (q : RawProduct)
    → q.id ≢ i
    → state_of i (qs ++ (q ∷ [])) ≡ state_of i qs
state_of-append i [] q h = ground arith
state_of-append i (x ∷ qs) q h = ground (arith, state_of-append i qs q h)

-- A product that a search finds has a state.
pub state_of-find :
    (p : RawProduct → Bool) (qs : List RawProduct) {q : RawProduct}
    → find p qs ≡ some q
    → state_of q.id qs ≢ none
state_of-find p [] e = absurd cc
state_of-find p (x ∷ qs) {q} e = ground (arith, state_of-find p qs {q = q})

-- A product appended under an id that is not in use.
pub state_of-new :
    (qs : List RawProduct) (q : RawProduct)
    → All (λ x. x.id ≢ q.id) qs
    → state_of q.id (qs ++ (q ∷ [])) ≡ some q.publication_state
state_of-new [] q h = ground arith
state_of-new (x ∷ qs) q h = ground (arith, state_of-new qs q h.1)
