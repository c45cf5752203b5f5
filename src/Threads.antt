-- ===== src/Threads.antt =====
-- The client's threads and the pseudo thread of one thread context, interleaved in any order: the
-- requests of libveo/ThreadContext.cpp and libveo/AsyncTransfer.cpp, `startEventLoop`, `eventLoop`
-- and `_closeCommandHandler`, over the queues of libveo/Command.cpp (src/libveo in the repository).
pub mod Tally
pub mod Moves
pub mod System
mod Counts
pub mod Places
pub mod Order
pub mod Lost
mod Tests
