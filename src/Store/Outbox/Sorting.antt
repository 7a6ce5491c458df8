-- ===== src/Store/Outbox/Sorting.antt =====
-- `order by … asc`: a stable sort by a numeric key. SQL leaves the order of equal keys open;
-- here it is the order of insertion.
pub mod Laws
use doxx.Base.{ℕ, List, [], ◌∷◌, leb, if◌then◌else◌}

module _ {ℓ} {R : Type ℓ} where
  unfoldable pub insert_by : (R → ℕ) → R → List R → List R
  insert_by key r [] = r ∷ []
  insert_by key r (x ∷ xs) = if leb (key r) (key x) then r ∷ x ∷ xs else x ∷ insert_by key r xs

  unfoldable pub order_by : (R → ℕ) → List R → List R
  order_by key [] = []
  order_by key (r ∷ rs) = insert_by key r (order_by key rs)
