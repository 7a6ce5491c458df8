-- ===== src/Store/Valid/Claims.antt =====
-- A claim keeps the invariant: the products of the claimed rows, and no others, show `publishing`.
use doxx.Base.{
  ℕ, ◌≤◌, ◌≡◌, refl, ◌≢◌, false, List, [], ◌∷◌, arith, mem_nat, String, if◌then◌else◌, Bool-cases,
  inl, inr, All, Pairwise, All-map_mono, All-zip, ◌∙◌, max, ◌+◌, ◌*◌, is_empty,
}
use doxx.Table.{update_where, All-update_where, Pairwise-update_where}
use doxx.Store.Rows.{Time, publishing, RawProduct, OutboxRow, Db}
use doxx.Store.Env.{Externals}
use doxx.Store.Iso.{second}
use doxx.Store.Outbox.{raw_ids, lease_row, set_state, lease_ids, claim_outbox_batch, ready_ids}
use doxx.Store.Valid.{AreDistinct, FitsProducts, IsValid}
use doxx.Store.States.{state_of-update}

abbrev Others : ℕ → List OutboxRow → Type 0
Others i rs = All (λ s. s.raw_product_id ≢ i) rs

not-mem-raw_ids :
    (ids : List ℕ) (i : ℕ) (rs : List OutboxRow) → Others i rs → mem_nat i (raw_ids ids rs) ≡ false
not-mem-raw_ids ids i [] h = refl
not-mem-raw_ids ids i (r ∷ rs) h = ground (arith, not-mem-raw_ids ids i rs h.1)

abbrev Agrees : List ℕ → List ℕ → OutboxRow → Type 0
Agrees ids raws r = mem_nat r.raw_product_id raws ≡ mem_nat r.id ids

Agrees-head :
    (ids : List ℕ) (r : OutboxRow) (rs : List OutboxRow)
    → All (AreDistinct r) rs
    → Agrees ids (raw_ids ids (r ∷ rs)) r
Agrees-head ids r rs h = ground (
  arith,
  not-mem-raw_ids ids r.raw_product_id rs (
      All-map_mono (AreDistinct r) (λ s. s.raw_product_id ≢ r.raw_product_id) (λ s d. d.products) rs
        h),
)

Agrees-later :
    (ids : List ℕ) (r : OutboxRow) (rs : List OutboxRow) (s : OutboxRow)
    → AreDistinct r s
    → Agrees ids (raw_ids ids rs) s
    → Agrees ids (raw_ids ids (r ∷ rs)) s
Agrees-later ids r rs s d h = ground (arith, d.products)

-- A row's product is among those of the claimed rows exactly when the row is claimed.
mem-raw_ids :
    (ids : List ℕ) (rs : List OutboxRow)
    → Pairwise AreDistinct rs
    → All (Agrees ids (raw_ids ids rs)) rs
mem-raw_ids ids [] h = tt
mem-raw_ids ids (r ∷ rs) h =
    (Agrees-head ids r rs h.0, All-zip (Agrees-later ids r rs) rs h.0 (mem-raw_ids ids rs h.1))

module _ (ids : List ℕ) (owner : String) (expires now : Time) where
  raw_ids-lease :
      (rs : List OutboxRow)
      → raw_ids ids (update_where (λ r. mem_nat r.id ids) (lease_row owner expires now) rs)
        ≡ raw_ids ids rs
  unfolding lease_row
  raw_ids-lease [] = refl
  raw_ids-lease (r ∷ rs) = ground (arith, raw_ids-lease rs)

  lease-keeps-AreDistinct :
      (r s : OutboxRow)
      → AreDistinct r s
      → AreDistinct
          (if mem_nat r.id ids then lease_row owner expires now r else r)
          (if mem_nat s.id ids then lease_row owner expires now s else s)
  unfolding lease_row
  lease-keeps-AreDistinct r s d = ground arith

  -- One row, claimed or not, and its product.
  lease-fits :
      (qs : List RawProduct) (raws : List ℕ) (r : OutboxRow)
      → FitsProducts qs r × Agrees ids raws r
      → FitsProducts
          (update_where (λ q. mem_nat q.id raws) (set_state publishing now) qs)
          (if mem_nat r.id ids then lease_row owner expires now r else r)
  unfolding lease_row
  lease-fits qs raws r (h, a) =
      let moved =
        state_of-update (λ i. mem_nat i raws) (set_state publishing now) publishing
          (λ q. unfold set_state in refl) (λ q. unfold set_state in refl) r.raw_product_id qs in
      elim (Bool-cases (mem_nat r.id ids)) [
        | inl t ↦ rw t (record {
          mirrored = moved ∙ ground (arith, h.mirrored, a);
          leased = ((λ e. cc), (λ e. cc));
        })
        | inr f ↦
            rw f (record { mirrored = moved ∙ ground (arith, h.mirrored, a); leased = h.leased })
      ]

  lease_ids-IsValid : (db : Db) → IsValid db → IsValid (lease_ids ids owner expires now db)
  unfolding lease_ids
  lease_ids-IsValid db v = record {
    distinct =
        Pairwise-update_where AreDistinct (λ r. mem_nat r.id ids) (lease_row owner expires now)
          lease-keeps-AreDistinct db.outbox v.distinct;
    fits = rw raw_ids-lease (
        All-update_where (FitsProducts _)
          (λ r. FitsProducts db.products r × Agrees ids (raw_ids ids db.outbox) r)
          (λ r. mem_nat r.id ids) (lease_row owner expires now)
          (lease-fits db.products (raw_ids ids db.outbox)) db.outbox
          (All-zip (λ r h a. (h, a)) db.outbox v.fits (mem-raw_ids ids db.outbox v.distinct)));
    outbox_ids =
        All-update_where (λ r. r.id ≤ db.outbox_seq) (λ r. r.id ≤ db.outbox_seq)
          (λ r. mem_nat r.id ids) (lease_row owner expires now)
          (λ r h. unfold lease_row in ground (arith, h)) db.outbox v.outbox_ids;
    product_ids = rw raw_ids-lease (
        All-update_where (λ q. q.id ≤ db.product_seq) (λ q. q.id ≤ db.product_seq)
          (λ q. mem_nat q.id (raw_ids ids db.outbox)) (set_state publishing now)
          (λ q h. unfold set_state in ground (arith, h)) db.products v.product_ids);
  }

-- Claiming a batch keeps the invariant.
pub claim_outbox_batch-IsValid :
    (ext : Externals) (batch_size : ℕ) (publisher_id : String) (lease_seconds : ℕ) (now : Time)
    (db : Db)
    → IsValid db
    → IsValid (claim_outbox_batch ext batch_size publisher_id lease_seconds now db).1
unfolding claim_outbox_batch
claim_outbox_batch-IsValid ext batch_size publisher_id lease_seconds now db v =
    let ids = ready_ids batch_size now db in
    elim (Bool-cases (is_empty ids)) [
      | inl t ↦ rw t v
      | inr f ↦
          rw f (lease_ids-IsValid ids publisher_id (now + max lease_seconds 1 * second) now db v)
    ]
