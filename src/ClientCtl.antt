-- ===== src/ClientCtl.antt =====
-- src/client_ctl: the configurations that are passed to a client, as JSON objects.
pub mod StartupConfig
pub mod ApplicationInfo
pub mod Whole
mod Tests
