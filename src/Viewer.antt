-- ===== src/Viewer.antt =====
-- crates/izev: the terminal viewer of projects and their changes.
pub mod Event
pub mod Changes
pub mod App
pub mod Terminal
mod Tests
