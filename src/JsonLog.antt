-- ===== src/JsonLog.antt =====
-- src/json_log: log items as JSON objects, the reader of a stream of them, and the writer.
pub mod Converter
pub mod Reader
pub mod Writer
pub mod Readers
pub mod Delivery
mod Tests
