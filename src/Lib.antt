-- ===== src/Lib.antt =====
-- NPFoundation: its data structures, in a model that follows the code function by function.
--
-- The parts and the files that model them (paths are those of the repository):
-- - Prelude: Boolean tests, lists and bits on native numbers, and `Run`, how a run of the program ends: a
--   value, undefined behaviour of the language, a failed assertion, or the model's fuel used up. `Ends P`
--   says that a run ends with a value that `P` holds of, so it rules the other three out.
-- - Heap (Sources/NPFoundation/include/NPFoundation/DataStructures/Heap.h): the binary heap. `heapify` and
--   `sift_up` are its two loops, run on fuel that each iteration uses one of; the length of the vector is
--   enough, and the theorems rule `out_of_fuel` out. `Comparable` is `<` and `>` of the entries, a strict
--   weak order.
-- - CopyOnWriteBacked (Sources/NPFoundation/include/NPFoundation/CopyOnWriteBacked.h): reference-counted
--   blocks in a store; a C++ object is its pointer, `none` for null. `Counted` is the invariant: over all the
--   references that the program holds, each block counts those that point to it. Threads is one block with
--   the atomic accesses of several threads in any order, as a step relation.
-- - Memory: regions of bytes, pointers into them, `memmove`, and what the documentation of the C library and
--   of `ByteBufferAllocator` promises of the four hooks (`IsLawful`). Memory/Arena is an allocator that
--   keeps these promises.
-- - ByteBuffer/Capacity and ByteBuffer/Storage (Sources/NPFoundation/ByteBuffer.cpp and its header): the
--   capacity rounding and `ByteBufferStorage`; a method that changes `this` returns the new storage.
-- - ByteBuffer (the same files): `ByteBuffer`, whose storage is a reference of CopyOnWriteBacked, in a world
--   of blocks and memory. `Sound` is the invariant over all buffers, `Shows` is what a buffer has between
--   its cursors. ByteBuffer/Queue is its specification: a queue of bytes, its operations in any sequence.
--   ByteBuffer/Program is the specification of many buffers: byte strings, one for each buffer, that share
--   nothing. ByteBuffer/Refused is the run in which there is no memory for the copy of a shared block.
-- - Objc (Sources/NPFoundation/objc): Runtime is NSObjCRuntime.c and the three macros of its header, over a
--   runtime that is a parameter with laws for what it is documented to do (`Documented`); Observing is
--   NSValueObserving.m, the handlers that run when an object is deallocated.
-- - Dispatch/Timer and Dispatch/Schedule (Sources/NPFoundation/dispatch/timer.m, schedule.m): the flags of a
--   timer and the calls that it makes on its source, one method at a time or (Interleaved) with the locked
--   parts and the calls of several threads in any order; the making of timers, and those that are cancelled
--   with an object, by Objc/Observing; the variables of throttle and debounce, as steps of one queue, and
--   their handles; and (Schedule/Running) a debounce whose handle is used while its queue runs blocks and its
--   timers expire, in any order. The throttle compares whole nanoseconds where the code has doubles in seconds.
-- - Machine (Sources/NPFoundation/machine/MachineContext.c): the registers of a thread, by architecture.
-- - Diagnostics (Sources/NPFoundation/Diagnostics.cpp and its header): the errors kept and the lines written;
--   what `vsnprintf` formats is given.
-- - Sys (Sources/NPFoundation/sys.cpp): the wrappers that try a system call again when it is interrupted, and
--   the memory mappings; the system is a parameter, with `Ledger` and `Patient` for what the calls do to the
--   open descriptors and mappings and how often they are interrupted. The loops run on fuel, which is enough
--   if it is more than the interrupts in a row.
--
-- Sizes are 64-bit words, written out as `% 2 ^ 64` where the code adds; the reference count is a 32-bit
-- word, and the theorems about it hold while fewer references are held than it can count. `assert` is
-- taken to be compiled in. `new` of a block is taken not to fail, as the code takes it.
--
-- Not modelled: threads, but for the three step relations named above; weak memory orders; `reserve` of the
-- heap, which is a hint to the vector; what libdispatch, the C library, the kernel and the Objective-C
-- runtime do inside their functions; and the headers that only include, define macros or give a version.
pub mod Prelude
pub mod Heap
pub mod CopyOnWriteBacked
pub mod Memory
pub mod ByteBuffer
pub mod Dispatch
pub mod Diagnostics
pub mod Sys
pub mod Objc
pub mod Machine
