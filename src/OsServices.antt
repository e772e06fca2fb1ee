-- ===== src/OsServices.antt =====
-- src/os_services: file descriptors, input and output, interprocess communication, processes.
pub mod Fd
pub mod Io
pub mod IoMultiplexer
pub mod Ipc
pub mod ProcMgmt
