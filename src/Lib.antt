-- ===== src/Lib.antt =====
-- Tasking Framework, the event-driven execution platform of this repository.
--
-- An application has tasks, each with an array of inputs. A channel keeps a list of the inputs
-- that are associated to it; a push on the channel notifies each of them, an input that has
-- counted enough activates its task, and the task goes to the run queue of its scheduler, which a
-- schedule policy orders. After its run a task is reset, which consumes what its inputs had
-- counted.
--
-- Base has shared definitions: tests, lists, pointers as optional numbers, and linked lists over a
-- store of `next` pointers. Objects are numbered, `none` is the null pointer, and an access
-- through it makes a call yield `none`.
--
-- Policy models src/schedulePolicy*.cpp. Policy/Interface is the class `SchedulePolicy` of
-- include/schedulePolicy.h with its laws; Policy/Fifo, Policy/Lifo, Policy/Priority and
-- Policy/PSlot have `queue` and `nextTask` of the four policies on their linked lists, and their
-- children relate them to lists. Policy/Runs runs any calls, and Policy/Agree compares two
-- policies. The search loop of the priority policy runs on fuel, one more than the number of
-- tasks; distinct tasks below that number cannot be more, so it suffices. The loop of the slot
-- policy recurs on the slot.
--
-- Input and InputArray model src/taskInput.cpp and src/taskInputArray.cpp: `notifyInput`, `reset`,
-- `setSynchron`, `configure`, `isActivated` and the like on the record of an input. Counters are
-- 32-bit unsigned numbers.
--
-- System has the state of an application and the calls between its parts: System/World the stores
-- of src/task.cpp, src/taskChannel.cpp, src/taskBarrier.cpp, src/taskGroup.cpp and
-- src/scheduler.cpp, System/Activation `push`, `notifyInput`, `activate` and `perform`,
-- System/Reset the resets and `finalizeExecution`, System/Execution `execute`, `start` and
-- `terminate`, System/Wiring the association of inputs, channels, tasks and groups.
-- System/Queued, System/Push, System/Barrier, System/Resetting, System/Restart, System/Group and
-- System/Terminate have the proofs, and Restart/Outcome says when a task that is reset runs
-- again. The walk along a channel's list of inputs runs on fuel, one more than the number of
-- inputs of the application, and the proofs ask that the list is no longer. System/Members treats
-- the list of inputs of one channel, and System/Connected all of them together with the inputs'
-- pointers to their channels. System/Started is about `start`, System/Executed about `execute`,
-- where System/Counting and its child count what a reset consumes, and System/Pushed about a push
-- in an application that is in order.
--
-- System/UnitTest models src/schedulerUnitTest.cpp, which puts the parts together: in a simulated
-- time `schedule` handles the events that are due, with the pushes that they make, and executes
-- the tasks of the run queue, until no event is pending. Its loops run on fuel. UnitTest/Drained
-- proves how much the loop over the tasks needs, UnitTest/Calls and UnitTest/Handling treat the
-- loop over the events, and UnitTest/Scheduled the whole. UnitTest/Relative has `Event::reset`, by
-- which a reset of an input starts a relative event again.
--
-- Clock models src/clock.cpp: the queue of timed events, linked both ways, with `enqueue`,
-- `enqueueHead`, `startAt` and `startIn`, and in Clock/Remove `dequeue`, `dequeueAll`,
-- `readFirstPending` and `getNextStartTime`. Clock/Order states what the pointers to earlier
-- events refer to; Clock/Correct, Clock/Search, Clock/Enqueue, Clock/Insert, Clock/Cut and
-- Clock/Kept prove that the operations keep it, and Clock/Steps and Clock/Run treat any calls as
-- time passes. Times are 64-bit unsigned numbers. The loops run on fuel, one more than the number
-- of events, as the queue holds an event at most once.
--
-- Schedule models src/taskPeriodicSchedule.cpp and Events src/taskEvent.cpp and `handleEvents` of
-- src/scheduler.cpp on the clock: the time settings, `trigger`, `stop`, `reset` and `handle`.
-- Every reading of the clock is an argument, and what an event calls outside is a list of calls.
-- The loop of `handleEvents` takes one round for each pair of readings that it is given.
-- Events/Handled and Events/Ends prove how many are enough while the clock stands.
--
-- Names models the conversions between names and identifications of include/impl/taskUtils_impl.h,
-- and Names/Numbers the identifications that the constructors of tasks and channels give.
-- LinuxClock models the arithmetic of arch/linux/clockExecutionModel.cpp.
--
-- FifoChannel models channels/src/fifoGeneric.cpp on its links: the class `FifoGeneric` with
-- `allocate`, `push`, `pop`, `release` and `releaseElement`, in FifoChannel/Reader the class
-- `FifoGenericReader` and in FifoChannel/Readers the association, the release and the
-- synchronization of readers. FifoChannel/Lists states which lists the links hold,
-- FifoChannel/Moves and FifoChannel/Taken what the operations do to them, FifoChannel/Run and
-- FifoChannel/Conserved treat any calls without readers; FifoChannel/Reading and FifoChannel/Lost
-- are about readers. The loops run on fuel, one more than the number of elements, links or
-- readers; a list holds nothing twice, so it suffices. Buffers models
-- channels/include/channels/doubleBuffer.h, and System/Sending, with the push on the channel, the
-- single buffer of channels/include/channels/singleBuffer.h and channels/src/signalChannel.cpp.
--
-- A mutex makes its critical section one step: calls do not interleave. The methods of the
-- platform (`signal`, `getTime`, `startTimer`, `waitUntilEmpty`), the body of a task and the
-- channels of other classes are parameters or results, and `signals` counts the calls of `signal`.
--
-- Not modelled: the platforms under arch/ but for the Linux clock's arithmetic, as they rest on
-- threads, condition variables and timers of an operating system; the constructors that only set
-- fields; src/taskStatistics.cpp, which is not built and whose header declares other members; and
-- contrib/, a copy of another project's library.
pub mod Base
pub mod Clock
pub mod LinuxClock
pub mod Names
pub mod Schedule
pub mod Events
pub mod FifoChannel
pub mod Buffers
pub mod Policy
pub mod Input
pub mod InputArray
pub mod System
mod Tests
