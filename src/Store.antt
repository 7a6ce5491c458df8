-- ===== src/Store.antt =====
-- The persistence of scraped products and of the publication outbox.
pub mod Rows
pub mod Env
pub mod Iso
pub mod Specs
pub mod Event
pub mod Product
pub mod Details
pub mod Enqueue
pub mod Persist
pub mod Runs
pub mod Outbox
pub mod Settle
pub mod Postgres
pub mod Leases
pub mod Valid
pub mod States
pub mod History
pub mod Claiming
pub mod Marking
pub mod Stranded
pub mod Pictures
pub mod Samples
mod Tests
