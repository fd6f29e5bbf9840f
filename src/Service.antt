-- ===== src/Service.antt =====
-- apps/boutique/sure/common/service/service.h: descriptors of shared buffers, and how the messages of
-- a stream of descriptors are put together again.
pub mod Unimsg
pub mod Process
pub mod Loop
pub mod Sync
pub mod Async
mod Tests
