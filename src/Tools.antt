-- ===== src/Tools.antt =====
-- tools.py: statements against the `cf` table and their checks, and when a test is skipped.
pub mod Database
pub mod C1C2
pub mod Files
pub mod SslStores
pub mod NewNode
pub mod Interrupts
pub mod Columns
pub mod PutGet
pub mod PutGetLaws
pub mod Skipping
pub mod GitBranch
