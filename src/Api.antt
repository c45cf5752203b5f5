-- ===== src/Api.antt =====
-- libveo/api.cpp (src/libveo in the repository): the functions of the C API.
pub mod Reply
pub mod Create
pub mod Process
pub mod Contexts
pub mod Arguments
pub mod Escapes
pub mod Failure
pub mod Exited
mod Tests
