-- ===== src/Dtest.antt =====
-- dtest.py: the base class of every test and its helpers, a child module for each part.
pub mod Retry
pub mod Scenarios
pub mod Runner
pub mod Session
pub mod Schema
pub mod Environment
pub mod Setup
pub mod Lifecycle
