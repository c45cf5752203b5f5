-- ===== src/Composed.antt =====
-- libveo/ProcHandle.cpp over libveo/ThreadContext.cpp and AsyncTransfer.cpp (src/libveo in the
-- repository): the process handle with the requests, the pseudo thread and the results of its worker.
pub mod Pseudo
pub mod Serve
pub mod Transfers
pub mod Refines
pub mod Interleaved
pub mod Simulated
pub mod Started
pub mod Calls
pub mod Values
mod Tests
mod SystemTests
