-- ===== src/Store/Leases.antt =====
-- Leases of the Postgres store run out.
use doxx.Base.{
  ℕ, ◌+◌, ◌*◌, max, ◌≡◌, String, Bool, true, List, [], ◌∷◌, arith, mem_nat, is_empty, leb, All,
  Bool-cases, inl, inr,
}
use doxx.Table.{update_where}
use doxx.Store.Rows.{Time, OutboxRow, Db}
use doxx.Store.Env.{Externals}
use doxx.Store.Iso.{second}
use doxx.Store.Postgres.{ready, selected_ids, take_lease, take_leases, claim_batch}

taken-ready :
    (ids : List ℕ) (owner : String) (expires now later : Time) (rs : List OutboxRow)
    → All
        (λ r. mem_nat r.id ids ≡ true → ready later r ≡ leb expires later)
        (update_where (λ r. mem_nat r.id ids) (take_lease owner expires now) rs)
unfolding take_lease ready
taken-ready ids owner expires now later [] = tt
taken-ready ids owner expires now later (r ∷ rs) = elim (Bool-cases (mem_nat r.id ids)) [
  | inl t ↦ rw t ((λ h. ground arith), taken-ready ids owner expires now later rs)
  | inr f ↦ rw f ((λ h. cc (h, f)), taken-ready ids owner expires now later rs)
]

none-taken :
    (ids : List ℕ) (later expires : Time)
    → is_empty ids ≡ true
    → (rs : List OutboxRow)
    → All (λ r. mem_nat r.id ids ≡ true → ready later r ≡ leb expires later) rs
none-taken ids later expires e [] = tt
none-taken [] later expires e (r ∷ rs) = ((λ h. cc h), none-taken [] later expires e rs)
none-taken (x ∷ ids) later expires e rs = cc e

-- After a claim a row that it took is ready at a later time exactly if its lease has run out by
-- then: not before, so no other claim takes it, and again from then on.
pub claim_batch-leases :
    (ext : Externals) (locked : ℕ → Bool) (n : ℕ) (owner : String) (lease_seconds : ℕ)
    (now later : Time) (db : Db)
    → All
        (λ r.
          mem_nat r.id (selected_ids locked n now db) ≡ true
          → ready later r ≡ leb (now + max lease_seconds 1 * second) later)
        (claim_batch ext locked n owner lease_seconds now db).1.outbox
unfolding claim_batch take_leases
claim_batch-leases ext locked n owner lease_seconds now later db =
    let ids = selected_ids locked n now db in
    elim (Bool-cases (is_empty ids)) [
      | inl t ↦ rw (t, claim_batch) (none-taken ids later _ t db.outbox)
      | inr f ↦
          rw (f, claim_batch)
            (taken-ready ids owner (now + max lease_seconds 1 * second) now later db.outbox)
    ]
