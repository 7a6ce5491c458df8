-- ===== src/Store/Outbox/Sorting/Laws.antt =====
-- `order_by` gives the same rows, sorted.
use doxx.Base.{
  ℕ, zero, suc, ◌≤◌, List, [], ◌∷◌, arith, leb, Bool-cases, inl, inr, All, All-map_mono, Pairwise,
  take, drop,
}
use mathlib.Core.List.{Perm}
use mathlib.Core.List.Perm
use doxx.Store.Outbox.Sorting.{insert_by, order_by}

module _ {ℓ κ} {R : Type ℓ} (P : R → Type κ) (key : R → ℕ) where
  pub All-insert_by : (r : R) (xs : List R) → P r → All P xs → All P (insert_by key r xs)
  unfolding insert_by
  All-insert_by r [] p h = (p, tt)
  All-insert_by r (x ∷ xs) p h = elim (Bool-cases (leb (key r) (key x))) [
    | inl t ↦ rw t (p, (h.0, h.1))
    | inr f ↦ rw f (h.0, All-insert_by r xs p h.1)
  ]

  pub All-order_by : (xs : List R) → All P xs → All P (order_by key xs)
  unfolding order_by
  All-order_by [] h = tt
  All-order_by (x ∷ xs) h = All-insert_by x (order_by key xs) h.0 (All-order_by xs h.1)

module _ {ℓ} {R : Type ℓ} (key : R → ℕ) where
  abbrev pub LeKey : R → R → Type 0
  LeKey a b = key a ≤ key b

  insert_by-sorted : (r : R) (xs : List R) → Pairwise LeKey xs → Pairwise LeKey (insert_by key r xs)
  unfolding insert_by
  insert_by-sorted r [] h = (tt, tt)
  insert_by-sorted r (x ∷ xs) h = elim (Bool-cases (leb (key r) (key x))) [
    | inl t ↦ rw t (
      (ground (arith, t), All-map_mono (LeKey x) (LeKey r) (λ s le. ground (arith, t, le)) xs h.0),
      (h.0, h.1),
    )
    | inr f ↦
        rw f (All-insert_by (LeKey x) key r xs (ground (arith, f)) h.0, insert_by-sorted r xs h.1)
  ]

  pub order_by-sorted : (xs : List R) → Pairwise LeKey (order_by key xs)
  unfolding order_by
  order_by-sorted [] = tt
  order_by-sorted (x ∷ xs) = insert_by-sorted x (order_by key xs) (order_by-sorted xs)

  insert_by-perm : (r : R) (xs : List R) → Perm (insert_by key r xs) (r ∷ xs)
  unfolding insert_by
  insert_by-perm r [] = Perm.refl _
  insert_by-perm r (x ∷ xs) = elim (Bool-cases (leb (key r) (key x))) [
    | inl t ↦ rw t (Perm.refl _)
    | inr f ↦ rw f (Perm.trans (Perm.cons x (insert_by-perm r xs)) (Perm.swap r x xs))
  ]

  pub order_by-perm : (xs : List R) → Perm (order_by key xs) xs
  unfolding order_by
  order_by-perm [] = Perm.refl _
  order_by-perm (x ∷ xs) =
      Perm.trans (insert_by-perm x (order_by key xs)) (Perm.cons x (order_by-perm xs))

  -- In a sorted list no element of a prefix is above one of the rest.
  pub take-le-drop :
      (n : ℕ) (xs : List R) → Pairwise LeKey xs → All (λ a. All (LeKey a) (drop n xs)) (take n xs)
  take-le-drop zero xs h = tt
  take-le-drop (suc n) [] h = tt
  take-le-drop (suc n) (x ∷ xs) h = (All-drop n xs h.0, take-le-drop n xs h.1)
    where
      All-drop : (m : ℕ) (ys : List R) → All (LeKey x) ys → All (LeKey x) (drop m ys)
      All-drop zero ys k = k
      All-drop (suc m) [] k = tt
      All-drop (suc m) (y ∷ ys) k = All-drop m ys k.1
