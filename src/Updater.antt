-- ===== src/Updater.antt =====
-- The updater: src/updater.cpp and include/updater.hpp, as built for Linux. Logging is left out.
pub mod Disk
pub mod Swap
pub mod Moves
pub mod Safe
pub mod Success
pub mod Rollback
pub mod Shell
pub mod Words
pub mod Urls
pub mod Release
pub mod Checksums
mod Examples
