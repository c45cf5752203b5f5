-- ===== src/Attr.antt =====
-- The attributes of a thread context: the class `ThreadContextAttr` of libveo/ThreadContext.cpp, and its
-- C functions in libveo/api.cpp (src/libveo in the repository).
pub mod Object
pub mod History
mod Tests
