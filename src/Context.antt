-- ===== src/Context.antt =====
-- libveo/ThreadContext.hpp, libveo/ThreadContext.cpp and libveo/AsyncTransfer.cpp (src/libveo in the
-- repository): the state of a VEO thread context, and the requests that its clients make.
pub mod State
pub mod Requests
pub mod Results
pub mod Issue
pub mod Answers
mod Tests
