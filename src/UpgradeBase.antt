-- ===== src/UpgradeBase.antt =====
-- upgrade_tests/upgrade_base.py: which release an upgrade test starts from or goes to, and the
-- upgrade of a two-node cluster as the sequence of calls on its nodes.
pub mod Path
pub mod Upgrade
pub mod Replay
pub mod Prepare
pub mod Prepared
pub mod Versions
