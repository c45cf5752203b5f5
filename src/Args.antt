-- ===== src/Args.antt =====
-- libveo/CallArgs.hpp and libveo/CallArgs.cpp (src/libveo in the repository): the arguments of a
-- VE function, and the stack image that carries those which do not travel in registers.
pub mod Image
pub mod Setup
pub mod Layout
pub mod Buffers
pub mod Transfer
pub mod Numbers
pub mod Put
pub mod Initial
mod Tests
