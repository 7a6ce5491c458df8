-- ===== src/Store/Valid.antt =====
-- The invariant of the SQLite store: what holds of the outbox and the products between two
-- transactions.
pub mod Claims
pub mod Marks
pub mod Persists
pub mod Enqueues
pub mod Snapshots
use doxx.Base.{
  ℕ, ◌≤◌, ◌≡◌, ◌≢◌, String, Option, none, some, List, [], ◌∷◌, ◌==◌, All, Pairwise, if◌then◌else◌,
}
use doxx.Store.Rows.{Time, Status, publishing, leased, RawProduct, OutboxRow, Db}

-- Two outbox rows differ in id, in product and in event.
pub record AreDistinct (r s : OutboxRow) : Type 0 where
  pub ids : s.id ≢ r.id
  pub products : s.raw_product_id ≢ r.raw_product_id
  pub events : s.event_id ≢ r.event_id

-- The `publication_state` of the product with an id.
abbrev pub state_of : ℕ → List RawProduct → Option Status
state_of i [] = none
state_of i (q ∷ qs) = if q.id == i then some q.publication_state else state_of i qs

-- A row has a lease while it is being published, and at no other time.
abbrev pub LeaseFits : Status → Option String → Option Time → Type 0
LeaseFits publishing owner expires = (owner ≢ none) × (expires ≢ none)
LeaseFits leased owner expires = (owner ≢ none) × (expires ≢ none)
LeaseFits _ owner expires = (owner ≡ none) × (expires ≡ none)

-- The product of a row exists and shows the row's status; the row's lease fits its status.
pub record FitsProducts (qs : List RawProduct) (r : OutboxRow) : Type 0 where
  pub mirrored : state_of r.raw_product_id qs ≡ some r.status
  pub leased : LeaseFits r.status r.lease_owner r.lease_expires_at

pub record IsValid (db : Db) : Type 0 where
  pub distinct : Pairwise AreDistinct db.outbox
  pub fits : All (FitsProducts db.products) db.outbox
  pub outbox_ids : All (λ r. r.id ≤ db.outbox_seq) db.outbox
  pub product_ids : All (λ q. q.id ≤ db.product_seq) db.products
