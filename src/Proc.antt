-- ===== src/Proc.antt =====
-- libveo/ProcHandle.hpp and libveo/ProcHandle.cpp (src/libveo in the repository): the functions of the
-- process handle that go through the worker's context.
pub mod Worker
pub mod Handle
pub mod Arguments
pub mod Library
pub mod Open
pub mod Symbols
pub mod Create
pub mod Start
pub mod Once
pub mod Single
pub mod Exit
pub mod Destroy
mod Tests
mod CreateTests
