-- ===== src/Logging.antt =====
-- The logging of src/logging: the ring buffer, the asynchronous logger over it, and its statements.
pub mod Ring
pub mod Logger
pub mod Stream
