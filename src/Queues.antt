-- ===== src/Queues.antt =====
-- libveo/Command.hpp and libveo/Command.cpp (src/libveo in the repository): commands, the blocking
-- queue, and the pair of queues between the client's threads and the pseudo thread.
pub mod Blocking
pub mod Find
pub mod Comm
pub mod Drain
mod Tests
