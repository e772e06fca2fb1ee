-- ===== src/OsServices/Fd.antt =====
-- src/os_services/fd: file descriptors and the activity on them.
pub mod Activity
pub mod Opened
pub mod Descriptor
pub mod Monitor
