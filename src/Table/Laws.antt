-- ===== src/Table/Laws.antt =====
-- What each statement does to the rows of a table.
use doxx.Base.{
  refl, ◌≡◌, Option, arith, Bool, true, false, Option, none, some, List, [], ◌∷◌, ◌++◌, arith, All,
  Pairwise, All-append, All-zip, if◌then◌else◌, Bool-cases, inl, inr,
}
use mathlib.Core.Path.{subst}
use doxx.Table.Defs.{update_where, find, exists, delete_where}

module _ {ℓ κ} {R : Type ℓ} (P : R → Type κ) where
  pub All-find : (p : R → Bool) (rs : List R) {r : R} → All P rs → find p rs ≡ some r → P r
  All-find p [] h e = cc
  All-find p (x ∷ rs) {r} h e = elim (Bool-cases (p x)) [
    | inl t ↦
        let found : some x ≡ some r = rw t at e in let same : x ≡ r = cc found in subst P same h.0
    | inr f ↦ All-find p rs h.1 (rw f at e)
  ]

  -- If each row, changed or not, has the property, so has the table.
  pub All-update_where {μ} :
      (Q : R → Type μ) (p : R → Bool) (f : R → R)
      → ((r : R) → Q r → P (if p r then f r else r))
      → (rs : List R) → All Q rs
      → All P (update_where p f rs)
  All-update_where Q p f step [] h = tt
  All-update_where Q p f step (r ∷ rs) h = (step r h.0, All-update_where Q p f step rs h.1)

-- The row that a search returns passes its test.
pub find-passes {ℓ} :
    {R : Type ℓ} (p : R → Bool) (rs : List R) {r : R} → find p rs ≡ some r → p r ≡ true
find-passes p [] e = cc
find-passes p (x ∷ rs) {r} e = elim (Bool-cases (p x)) [
  | inl t ↦
      let found : some x ≡ some r = rw t at e in
      let same : x ≡ r = cc found in subst (λ y. p y ≡ true) same t
  | inr f ↦ find-passes p rs (rw f at e)
]

-- Where a search finds nothing, no row passes its test.
pub find-none {ℓ} :
    {R : Type ℓ} (p : R → Bool) (rs : List R) → find p rs ≡ none → All (λ r. p r ≡ false) rs
find-none p [] e = tt
find-none p (x ∷ rs) e = elim (Bool-cases (p x)) [
  | inl t ↦ let found : some x ≡ none = rw t at e in cc
  | inr f ↦ (f, find-none p rs (rw f at e))
]

pub exists-false {ℓ} :
    {R : Type ℓ} (p : R → Bool) (rs : List R) → exists p rs ≡ false → All (λ r. p r ≡ false) rs
exists-false p [] e = tt
exists-false p (x ∷ rs) e = elim (Bool-cases (p x)) [
  | inl t ↦ let found : true ≡ false = rw t at e in cc
  | inr f ↦ (f, exists-false p rs (rw f at e))
]

pub exists-of-false {ℓ} :
    {R : Type ℓ} (p : R → Bool) (rs : List R) → All (λ r. p r ≡ false) rs → exists p rs ≡ false
exists-of-false p [] h = refl
exists-of-false p (x ∷ rs) h = rw h.0 (exists-of-false p rs h.1)

-- After a deletion no row passes the test.
pub delete_where-none {ℓ} :
    {R : Type ℓ} (p : R → Bool) (rs : List R) → All (λ r. p r ≡ false) (delete_where p rs)
delete_where-none p [] = tt
delete_where-none p (x ∷ rs) = elim (Bool-cases (p x)) [
  | inl t ↦ rw t (delete_where-none p rs)
  | inr f ↦ rw f (f, delete_where-none p rs)
]

module _ {ℓ κ} {R : Type ℓ} (D : R → R → Type κ) where
  pub Pairwise-update_where :
      (p : R → Bool) (f : R → R)
      → ((r s : R) → D r s → D (if p r then f r else r) (if p s then f s else s))
      → (rs : List R) → Pairwise D rs
      → Pairwise D (update_where p f rs)
  Pairwise-update_where p f keep [] h = tt
  Pairwise-update_where p f keep (r ∷ rs) h = (
    All-update_where (D (if p r then f r else r)) (D r) p f (λ s d. keep r s d) rs h.0,
    Pairwise-update_where p f keep rs h.1,
  )

  pub Pairwise-append_one :
      (rs : List R) (new : R)
      → Pairwise D rs
      → All (λ r. D r new) rs
      → Pairwise D (rs ++ (new ∷ []))
  Pairwise-append_one [] new h k = (tt, tt)
  Pairwise-append_one (r ∷ rs) new h k =
      (All-append (D r) rs (new ∷ []) h.0 (k.0, tt), Pairwise-append_one rs new h.1 k.1)

  -- The same, where each row also has a property that the change may rely on.
  pub Pairwise-update_where_given {μ} :
      (Q : R → Type μ) (p : R → Bool) (f : R → R)
      → ((r s : R) → Q r → Q s → D r s → D (if p r then f r else r) (if p s then f s else s))
      → (rs : List R) → All Q rs
      → Pairwise D rs
      → Pairwise D (update_where p f rs)
  Pairwise-update_where_given Q p f keep [] q h = tt
  Pairwise-update_where_given Q p f keep (r ∷ rs) q h = (
    All-update_where (D (if p r then f r else r)) (λ s. Q s × D r s) p f
        (λ s (k, d). keep r s q.0 k d) rs (All-zip (λ s k d. (k, d)) rs q.1 h.0),
    Pairwise-update_where_given Q p f keep rs q.1 h.1,
  )

abbrev pub change_if {ℓ} : {R : Type ℓ} → (R → Bool) → (R → R) → Option R → Option R
change_if p f none = none
change_if p f (some r) = some (if p r then f r else r)

-- A search whose test the change leaves alone finds the same row, changed or not.
pub find-update_where {ℓ} :
    {R : Type ℓ} (q p : R → Bool) (f : R → R)
    → ((r : R) → q (f r) ≡ q r)
    → (rs : List R) → find q (update_where p f rs) ≡ change_if p f (find q rs)
find-update_where q p f same [] = refl
find-update_where q p f same (r ∷ rs) = ground (arith, same r, find-update_where q p f same rs)

find-append {ℓ} :
    {R : Type ℓ} (q : R → Bool) (rs : List R) (new : R)
    → find q rs ≡ none
    → find q (rs ++ (new ∷ [])) ≡ (if q new then some new else none)
find-append q [] new e = refl
find-append q (r ∷ rs) new e = elim (Bool-cases (q r)) [
  | inl t ↦ let found : some r ≡ none = rw t at e in cc
  | inr f ↦ rw f (find-append q rs new (rw f at e))
]
