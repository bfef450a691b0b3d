-- ===== src/Lib.antt =====
-- The kernel of Vertex OS (kernel/krust): kernel objects, messages, capabilities and processes.
--
-- A process holds capabilities in numbered slots. A capability names a kernel object of the object
-- table and a set of rights; it is copied and derived by a mask of rights, and each copy enters its
-- parent into a lineage, which a revocation follows. Endpoints
-- are objects that carry a queue of messages. A process opens files by paths below a root that it
-- has authority over, and reads them by handles.
--
-- Files, and the code that they are about (paths from the root of the repository):
--   Base          Boolean tests, results, lists as fixed arrays, bit masks.
--   Ids           identifiers and errors: kernel/krust/src/kernel/error.rs, kernel/process.rs.
--   Transport     messages and queues: kernel/krust/src/kernel/transport.rs.
--   Vfs           paths, namespaces and handles: kernel/krust/src/vfs/path.rs, namespace.rs, handle.rs.
--   Device        device objects: kernel/krust/src/device/object.rs, network.rs.
--   Object        kernel objects: kernel/krust/src/kernel/object.rs.
--   ObjectTable   the table of objects: kernel/krust/src/kernel/object_table.rs. Table, Add, Find and
--                 Remove model it; Live, Valid, Placed, Removed, Owned, Additions, Steps and Lookups
--                 hold its laws.
--   Capability    capability spaces: kernel/krust/src/kernel/process_runtime.rs.
--   Process       the process table, with its changes (Changes) and the handles of files
--                 (FileHandles): the same file. Handles, Turns, RoundRobin and Added hold the
--                 laws.
--   Runtime       new capabilities, lineage and revocation: kernel/krust/src/ipc/runtime_state.rs and
--                 ipc/object_lookup.rs; Syscalls models kernel/krust/src/ipc/capability_syscalls.rs.
--                 Transfer models its cap_transfer and Release its
--                 cap_drop, with object_reachable_by_cap of ipc/inspect_report.rs.
--                 Growth, Pass, Revocation, Ancestors, Lineage, Written, Attenuation, Moved, Unusable,
--                 Transferred and Dropped hold the laws.
--   Frame         saved frames: kernel/krust/src/kernel/process.rs.
--   Scheduler     waking, the choice of a deadline, switches and preemption:
--                 kernel/krust/src/ipc/scheduler.rs and ipc/process_syscalls.rs; Waiters models the
--                 cancelling of receivers and Revoke the system call cap_revoke. Changed, Woken,
--                 Deadlines, Pids, Preempted, Authority, Receivers, Spared, Resumed, CancelLoop and
--                 Canceled hold the laws.
--   Memory        the allocator of page frames: kernel/krust/src/memory.rs. Allocate and Release model
--                 its requests; Places, Ranges, Taken, Run, Freed, Steps, Fresh, Frames and Usable
--                 hold the laws.
--   Arena         the typed arena and the kernel heap: kernel/krust/src/arena.rs. Slots, Handles and
--                 Heap hold the laws.
--
-- State is passed on explicitly: an operation on `&mut self` takes the state and returns it. Arrays
-- of fixed length are lists whose length an invariant fixes, and the loops over the slots in use are
-- recursions on the list of these slots. An operation of the runtime that fails returns the state
-- that the program leaves behind.
--
-- Numbers are natural numbers. Wrapping and saturation are written out where the source has them;
-- the identifiers of objects are not bounded, since 2^64 additions would be needed to overflow.
--
-- Fuel: the outer loop of revoke_cap_id gets 1025 rounds, one more than the table of revoked
-- identifiers has slots, since each round but the last fills a slot. The walk over the ancestors of a
-- capability gets one round more than the identifier of its parent, since a parent is made before its
-- child. The loop that releases derived roots gets two rounds for each slot of the object table and one
-- more. A run that is out of fuel is the value none.
--
-- Not modelled: the scheduler's wait for a deadline and the interrupts that run in it, the delivery
-- of a message to a receiver that waits, the file system calls, vertexfs, paging and device
-- registers, the boot manifest, the crates for system descriptions, the user programs, and the log
-- lines.
pub mod Base
pub mod Ids
pub mod Frame
pub mod Transport
pub mod Vfs
pub mod Device
pub mod Object
pub mod ObjectTable
pub mod Capability
pub mod Process
pub mod Runtime
pub mod Scheduler
pub mod Memory
pub mod Arena
