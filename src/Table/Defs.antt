-- ===== src/Table/Defs.antt =====
-- Statements on a table: a list of rows in insertion order.
use doxx.Base.{Bool, false, Option, none, some, List, [], ◌∷◌, ◌||◌, if◌then◌else◌}

module _ {ℓ} {R : Type ℓ} where
  -- `update … set f where p`
  abbrev pub update_where : (R → Bool) → (R → R) → List R → List R
  update_where p f [] = []
  update_where p f (r ∷ rs) = (if p r then f r else r) ∷ update_where p f rs

  -- `select … where p`, first row
  abbrev pub find : (R → Bool) → List R → Option R
  find p [] = none
  find p (r ∷ rs) = if p r then some r else find p rs

  -- `delete … where p`
  abbrev pub delete_where : (R → Bool) → List R → List R
  delete_where p [] = []
  delete_where p (r ∷ rs) = let rest = delete_where p rs in if p r then rest else r ∷ rest

  -- `select 1 … where p`
  abbrev pub exists : (R → Bool) → List R → Bool
  exists p [] = false
  exists p (r ∷ rs) = p r || exists p rs
