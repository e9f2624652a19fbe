-- ===== src/Pijul.antt =====
-- crates/ize-lib/src/pijul: what is recorded in the repository.
pub mod Content
pub mod Operations
pub mod Libpijul
pub mod Backend
pub mod Query
mod Tests
