-- ===== src/Lib.antt =====
-- VEO (VE Offloading): a library with which a process on the vector host (VH) runs functions on a
-- vector engine (VE). This library models its C++ core, libveo, from the sources in src/libveo.
--
-- The parts and how they meet. A client builds a `CallArgs` and hands it to a `ThreadContext`. Each
-- request takes an ID, becomes a command, and goes through the request queue of a `CommQueue` to the
-- pseudo thread, which runs it on the VE and pushes it to the completion queue, where the client finds
-- it by its ID. While a function runs, the pseudo thread waits for exceptions of the VE, filters its
-- system calls, and stops where the VE asks for a block.
--
-- Base: numbers, words, lists, results and faults, the memory of the VH process.
-- Args: src/libveo/CallArgs.hpp and CallArgs.cpp. `Args.Image` has one argument (`ArgBase` and its
-- subclasses), `Args.Setup` the class `CallArgs`; `Args.Layout` describes the stack image apart from
-- the loop that builds it, and `Args.Layout.Whole`, `Args.Buffers`, `Args.Transfer`, `Args.Numbers`,
-- `Args.Put` and `Args.Initial` are about the two.
-- Queues: src/libveo/Command.hpp and Command.cpp. `Queues.Blocking` is `BlockingQueue`, `Queues.Comm`
-- is `CommQueue`. A function that holds the lock is one step; where the source waits for a condition
-- variable the model gives `none`.
-- Context: src/libveo/ThreadContext.hpp, ThreadContext.cpp and AsyncTransfer.cpp, on the client's
-- side. `Context.State` has the members of `ThreadContext` and `issueRequestID`, `Context.Requests`
-- the requests (`callAsync`, `callVHAsync`, `_callOpenContext`, `asyncReadMem`, `asyncWriteMem`,
-- `close`), `Context.Results` `callPeekResult` and `callWaitResult`. A handler's closure is a `Task`.
-- Execution: the same files, on the side of the pseudo thread. `Execution.Filters` has the system
-- call filters, `Execution.Exceptions` `handleSingleException` and `exceptionHandler`,
-- `Execution.Calls` `_doCall`, `_unBlock` and `_collectReturnValue`, `Execution.Clone`
-- `handleCloneRequest`, `Execution.Handlers` the handlers of the commands, `Execution.Loop`
-- `eventLoop`, `Execution.Start` `startEventLoop`. `Execution.Runs` describes the runs of the VE
-- apart from the handler, `Execution.RunSteps` and `Execution.RunEnds` compare the two,
-- `Execution.Trace` follows the handler along a run, and `Execution.Reports` says what each
-- handler records.
-- Threads: any number of client threads and the pseudo thread over one context, as a step relation.
-- A step is what a thread does under one lock, or one access to a shared atomic variable.
-- Steps: blocks of code that change a state and may throw, with their try blocks.
-- Spawn: src/libveo/ProcHandle.cpp, `spawn_helper` and what it calls: `Spawn.Area` has
-- `init_lhm_shm_area`, `close_syscall_args_file` and the lock, `Spawn.Auxiliary` the array of the
-- environment and the auxiliary vector, `Spawn.Helper` the function itself, `Spawn.Signal` the handler
-- of SIGCONT. `Spawn.Host.Host` is a record of the calls of the system, libved and libvepseudo.
-- Proc: src/libveo/ProcHandle.hpp and ProcHandle.cpp. `Proc.Create` and `Proc.Start` have the
-- constructor, with `waitForBlock`; `Proc.Handle`, `Proc.Library` and
-- `Proc.Open` the functions of the handle that go through its worker, of which `Proc.Worker.Worker` is
-- the interface; `Proc.Exit` and `Proc.Destroy` `exitProc`, whose command is none of the tasks of a
-- context, so that it has an interface of its own.
-- Composed: the worker of a process handle made of a context, its event loop and its results, which
-- fills `Proc.Worker.Worker`. The pseudo thread runs while the client waits for a result.
-- `Composed.Interleaved`, `Composed.Simulated` and `Composed.Started` put `startEventLoop` and the
-- event loop of Execution among the interleavings of Threads.
-- Api: src/libveo/api.cpp. `Api.Create` creates and destroys a process, `Api.Process` has the
-- functions on a process, `Api.Contexts` those on a context, `Api.Arguments` those on an argument
-- object. `Api.Failure` and `Api.Exited` are about a worker that refuses its requests, the worker
-- of Composed in the state EXIT among them.
-- Attr: `ThreadContextAttr` (ThreadContext.cpp) and its C functions (src/libveo/api.cpp).
-- Nodes: how `veo_proc_create_static` (src/libveo/api.cpp) chooses the VE node from _VENODELIST and
-- VE_NODE_NUMBER. A text is a list of character codes.
--
-- Parameters. libved, libvepseudo and VEOS are not part of the repository: `Execution.Driver.Driver` is
-- a record of the functions and numbers that are called, over a state `D` of the VE and of VEOS, with no
-- assumption about them. The same holds of `Spawn.Host.Host`, `Proc.Create.Creator`,
-- `Proc.Destroy.Exiter` and `Spawn.Signal.Signals`; `Spawn.Descriptors.IsHost` says which calls open and
-- close file descriptors. veorun.h is not part of the repository either: its versions, sizes and layouts
-- are arguments. The transfer function of `copyin` and `copyout` is the caller's, as in the source.
--
-- Numbers. All numbers are native naturals; a 64-bit sum is cut by `% 2 ^ 64`, an `int` sum by
-- `% 2 ^ 32` and sign extended where it is converted to `size_t`. Values of registers and arguments are
-- bit patterns.
--
-- Fuel. `issueRequestID` has two rounds, since it refuses one number. `setCompletion` has a round for
-- each request and one more. The waiting loop, the exception handler and the event loop take their
-- fuel as an argument; the results say for which runs some fuel is enough.
--
-- Not modelled: the log and the text of exceptions, the signal mask and the thread-local handle of
-- VEOS, a failure to allocate memory, `veo_api_version` and `veo_version_string` (constants of the
-- build), and `start_child_thread`, which only unpacks its argument for `startEventLoop`. Where a
-- function of the pseudo thread throws within the constructor of `ProcHandle`, the state that it leaves
-- is not described.
pub mod Base
pub mod Args
pub mod Queues
pub mod Context
pub mod Threads
pub mod Execution
pub mod Nodes
pub mod Steps
pub mod Attr
pub mod Spawn
pub mod Proc
pub mod Composed
pub mod Api
