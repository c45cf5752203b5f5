-- ===== src/Execution.antt =====
-- libveo/ThreadContext.cpp, libveo/ThreadContext.hpp and libveo/AsyncTransfer.cpp (src/libveo in the
-- repository): what the pseudo thread does with the VE, from a single exception to the event loop.
pub mod Driver
pub mod Filters
pub mod Exceptions
pub mod Calls
pub mod Clone
pub mod Handlers
pub mod Loop
pub mod Blocks
pub mod Trace
pub mod Served
pub mod Runs
pub mod RunSteps
pub mod RunEnds
pub mod Frame
pub mod Ends
pub mod Tasks
pub mod Reports
pub mod Turns
pub mod Order
pub mod Rounds
pub mod Progress
pub mod Answered
pub mod Liveness
pub mod Start
pub mod RoundTrip
pub mod Script
mod Tests
mod LoopTests
