-- ===== src/Table.antt =====
-- Tables of the relational store as lists of rows in insertion order, and the four statements
-- that the stores issue: `select … limit 1`, `update … where`, `delete … where`, `select … where`.
mod Defs
mod Laws
unfoldable pub use Defs.*
pub use Laws.*
