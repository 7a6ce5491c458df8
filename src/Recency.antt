-- ===== src/Recency.antt =====
-- The memories of a run that drop their oldest entries, as `OrderedDict`s: a list, oldest first.
-- `Bridge` is infrastructure/sync/runtime_identity_bridge.py, `Journal`
-- infrastructure/sync/runtime_replay_journal.py and `Registry`
-- infrastructure/sync/runtime_registry.py.
pub mod Laws
pub mod Bridge
pub mod Journal
pub mod Registry
pub mod Delivered
pub mod Crawl
mod Tests
use doxx.Base.{
  ℕ, String, Bool, Option, none, some, List, [], ◌∷◌, ◌++◌, length, ltb, ◌==◌, ◌=s=◌, if◌then◌else◌,
}

module _ {ℓ} {V : Type ℓ} where
  -- `d.get(k)`
  abbrev pub get : String → List (String × V) → Option V
  get k [] = none
  get k ((j, v) ∷ rest) = let later = get k rest in if j =s= k then some v else later

  abbrev pub forget : String → List (String × V) → List (String × V)
  forget k [] = []
  forget k ((j, v) ∷ rest) = let later = forget k rest in if j =s= k then later else (j, v) ∷ later

  -- `d[k] = v` and `d.move_to_end(k)`
  abbrev pub put : String → V → List (String × V) → List (String × V)
  put k v d = forget k d ++ ((k, v) ∷ [])

module _ {ℓ} {A : Type ℓ} where
  -- `while len(d) > max_n: d.popitem(last=False)`
  unfoldable pub trim_loop : ℕ → List A → List A
  trim_loop max_n [] = []
  trim_loop max_n (x ∷ d) =
      let later = trim_loop max_n d in if ltb max_n (length (x ∷ d)) then later else x ∷ d

  -- Without a positive limit nothing is dropped.
  unfoldable pub trim : ℕ → List A → List A
  trim max_n d = if max_n == 0 then d else trim_loop max_n d
