-- ===== src/Lib.antt =====
-- The Cyber RT runtime on a Raspberry Pi: the buffers between the writers and the readers of a
-- channel, the shared memory that carries messages between processes, and the timers.
--
-- Base: numbers with their tests, lists, 64-bit words, signed integers and bit masks that the
--   other modules share.
-- Timer (cyber/timer): Timer.Wheel models the class TimingWheel (timing_wheel.h,
--   timing_wheel.cc, timer_bucket.h, timer_task.h): tick, add_task, cascade and advance are
--   Tick, AddTask, Cascade and the loop body of TickFunc. Timer.Loop interleaves the steps of
--   the tick thread with the calls of other threads. Timer.Timer models the class Timer
--   (timer.h, timer.cc): World has the timer, the wheel and the number of running callbacks that
--   hold a task, and begin_callback and end_callback are the two ends of the callback of a
--   repeating timer. Timer.Wheel.Due says where a task stands and when it is due;
--   Timer.Wheel.Adding, Others, Ticking and Turning say what each operation makes of that.
-- Data (cyber/data): Data.CacheBuffer models cache_buffer.h, Data.ChannelBuffer
--   channel_buffer.h, Data.Visitor data_visitor.h, Data.AllLatest fusion/all_latest.h, and
--   Data.Dispatcher data_dispatcher.h and data_notifier.h. Data.CacheBuffer.Holds relates a
--   buffer to the history of the values that it was filled with.
-- Transport (cyber/transport): Transport.ShmConf models shm/shm_conf.cc, Transport.Block
--   shm/block.cc, Transport.Segment shm/segment.cc and shm/state.h (its child Machine has the
--   calls of the operating system and the objects in shared memory, Blocks the operations on
--   blocks), Transport.ReadableInfo shm/readable_info.cc, Transport.ConditionNotifier
--   shm/condition_notifier.cc, Transport.MessageInfo message/message_info.cc and
--   common/identity.cc, Transport.History message/history.h, and Transport.Hybrid
--   transmitter/hybrid_transmitter.h and receiver/hybrid_receiver.h.
-- Scheduler (cyber/croutine, cyber/scheduler): Scheduler.CRoutine models croutine.h,
--   Scheduler.Context the function NextRoutine of policy/classic_context.cc, whose queues have
--   the addresses of shared routines, and Scheduler.Classic policy/scheduler_classic.cc with
--   what it takes from scheduler.cc, and Scheduler.Choreography policy/choreography_context.cc
--   and policy/scheduler_choreography.cc; Scheduler.Classic.Scheduled says how its table of ids
--   and its queues agree, and Reached which states it can come to.
-- Io (cyber/io): Io.Poller models poller.cc; Io.Poller.Watching says what epoll watches, and
--   Io.Poller.Polling whom Poll calls.
-- Queue, RwLock, ReentrantLock and HashMap (cyber/base): HashMap models atomic_hash_map.h,
--   HashMap.Bucket one bucket with the threads that insert into it and HashMap.Table the table;
--   Queue models bounded_queue.h, and Queue.Sequence compares it with a list; RwLock models
--   atomic_rw_lock.h and ReentrantLock reentrant_rw_lock.h.
--
-- The parts meet as in the source: a message that is dispatched fills the cache buffers of its
-- channel, a fusion callback joins it with the latest messages of other channels, and a visitor
-- fetches from its buffer by a running index. A task of a timer stands in a bucket of the wheel
-- as a weak pointer; objects are addresses, and a table holds those that are alive.
--
-- Numbers of type uint64_t keep their wrap-around; theorems ask for fewer than 2^63 messages. A
-- weak pointer is locked by a lookup in the table of living objects. Loops are recursions on
-- lists, so no fuel is needed, but for the search for a free block, which the code repeats for
-- ever: it is watched for a number of rounds, and is shown to end in the round that meets a free
-- block. Waiting loops end with the list of rounds that they are given. A mutex makes the method
-- that holds it one step; the lock of a block, the bucket of the hash map and the read-write
-- locks are taken apart into their atomic operations. shmget, shmat, shmdt and shmctl are fields
-- of the record Shm, of which nothing is assumed but in Transport.Segment.Renewing, where IsShm
-- states what shmget and shmctl are documented to do; epoll_ctl is a function of the events that
-- a descriptor is watched for, with its documented results in IsEpoll. Not modelled: logging,
-- threads as such, the memory order of atomics, and the rounding of doubles beyond halves.
pub mod Base
pub mod Data
pub mod HashMap
pub mod Io
pub mod Queue
pub mod ReentrantLock
pub mod RwLock
pub mod Scheduler
pub mod Timer
pub mod Transport
