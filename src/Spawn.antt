-- ===== src/Spawn.antt =====
-- libveo/ProcHandle.cpp (src/libveo in the repository): the functions that start a VE process,
-- `spawn_helper` and those that it calls.
pub mod Host
pub mod Area
pub mod Auxiliary
pub mod Helper
pub mod Descriptors
pub mod Files
pub mod Leaks
pub mod Signal
pub mod Bounds
pub mod Node
pub mod Sample
mod Tests
