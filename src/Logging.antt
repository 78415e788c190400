-- ===== src/Logging.antt =====
-- The loggers: src/base/string_parsers.h, src/logging and include/logging, src/logger.cpp and
-- include/logger.h. A text is the list of its bytes.
pub mod Pattern
pub mod Stream
pub mod Logger
pub mod Sinks
pub mod Flushers
pub mod Manager
pub mod Async
mod Tests
