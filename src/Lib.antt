-- ===== src/Lib.antt =====
-- DoubleTake looks for memory errors in C and C++ programs from evidence that they leave. The program
-- runs at full speed in epochs. Its heap puts sentinels round each object and canary words into freed
-- ones; at the end of an epoch, and at each release, they are checked. Where one was overwritten, a
-- watchpoint is set on the word, the program is rolled back to the start of the epoch and replayed,
-- and the watchpoint catches the instruction that did it.
--
-- The parts, from the bottom up; each file says which code it is about:
-- Prelude: numbers, lists, bits and the ways in which a call ends (Prelude/Flow).
-- Memory: the bytes that the C++ code reads through its pointers, and little-endian words.
-- Defines: the constants and alignment functions of include/xdefines.hh.
-- Bitmap: include/bitmap.hh, the set of marked words. The buffer is a list of 64-bit words.
-- SentinelMap: include/sentinelmap.hh, the words of the heap that hold a sentinel; one bit of the
--   bitmap is one word of the heap.
-- HashMap, HashFuncs: include/hashmap.hh and include/hashfuncs.hh. A bucket is the list of its
--   entries and the count that bounds each walk.
-- CallSite: include/callsite.hh, a recorded call stack.
-- Memtrack: include/memtrack.hh and source/memtrack.cpp, the objects with an error, by their start.
-- Watchpoint: include/watchpoint.hh and source/watchpoint.cpp, the four words to watch.
-- Canary and Quarantine: include/quarantine.hh, freed objects and their canary words.
-- Detector: setSentinels of include/xmemory.hh and checkObjectOverflow of include/sentinelmap.hh,
--   the guard behind an object.
-- ObjectHeader: include/objectheader.hh, the sizes in front of each object and the leak check's mark.
-- Integrity: checkHeapIntegrity of include/sentinelmap.hh, the check at the end of an epoch.
-- XHeap: include/xheap.hh, the bump pointer under the heap.
-- RecordEntries: include/recordentries.hh, the pool of a thread's recorded events.
-- Links: include/list.hh, rings of nodes. The memory is the two fields of every node; Links/Ring says
--   which sequence of nodes a head stands for, and Links/Queue compares the operations with a queue.
-- Sync: the record of locks and their order in the replay, of include/synceventlist.hh,
--   include/xsync.hh and mutex_lock and mutex_unlock of include/xthread.hh. Lists of events are here
--   the sequences that Links is about. Sync/Progress has the threads of a replay as steps.
-- SysRecord: include/sysrecord.hh, the results of system calls, recorded and replayed.
-- Threads: include/threadinfo.hh, the 128 slots of the threads and the work put off to the end of an
--   epoch. The memory of the two pools of a new thread is a parameter.
-- XMemory: include/xmemory.hh, an object from its allocation to its release, and aligned allocations.
--   Headers are a function of the object's address. Under it are the size classes of
--   include/xpheap.hh, from the heaplayers library: the size of the class for a request is a
--   parameter, class_size, and so is the block that is taken, a fresh one or a freed one.
-- Epochs: include/globalinfo.hh, how the thread that ends an epoch stops the others and releases
--   them. Epochs/System has them as steps; a step is one hold of the mutex. A thread or the committer
--   may also wake up without a signal.
-- Tests: concrete states, and the theorems at them.
--
-- Sync and SysRecord take the pools of RecordEntries, and Threads those of both. XMemory calls the
-- SentinelMap, the Detector and Memtrack. Reports go from Canary and Detector to Watchpoint, which
-- passes them on to Memtrack; Memtrack asks the SentinelMap for the kind of fault.
--
-- An unsigned long or size_t is a number below 2 ^ 64, with its wrap-around written out where the
-- code can reach it; an int that the code turns negative is at least 2 ^ 31. A pointer is an
-- address; an array is a list. A failed assert and abort end a call as aborted, an access outside
-- an array or through a null pointer as fault. Loops that run over data recurse on it; the others
-- have fuel, and end as timeout when it is gone: 64 rounds for calcShiftBits, as many as the item's
-- index for findObjectStartAddr, 1024 for the ring of the quarantine, 128 for the slots of the
-- threads. The theorems say that this is enough.
--
-- Memory that malloc or mmap hands out is an argument, and so are the size classes of heaplayers. A
-- buffer that a call fills is the value copied to it, or stale where the code copies bytes that the
-- recording left alone. The real release of an object and the rollback are effects, which the
-- quarantine's state and result record. Locks are left out: each operation is one step. In Sync,
-- lock and unlock are those of a replay, by threads whose checks are not disabled, and what is
-- recorded are locks that were taken.
-- Printing, system calls, perf events, the C library's interposed entry points and the vendored
-- heaplayers are not modelled.
pub mod Prelude
pub mod Bitmap
pub mod Memory
pub mod HashMap
pub mod Defines
pub mod CallSite
pub mod SentinelMap
pub mod HashFuncs
pub mod Memtrack
pub mod Watchpoint
pub mod Canary
pub mod Quarantine
pub mod Detector
pub mod RecordEntries
pub mod XHeap
pub mod ObjectHeader
pub mod Integrity
pub mod Links
pub mod Sync
pub mod Epochs
pub mod Threads
pub mod SysRecord
pub mod Tests
pub mod XMemory
