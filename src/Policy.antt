-- ===== src/Policy.antt =====
-- include/schedulePolicy.h: what the scheduler asks of a run queue, as operations and laws.
-- The four policies of the framework stand in the child modules. A task is its number, and the
-- management data that a policy keeps in each task is a store in the policy's state.
pub mod Fifo
pub mod Lifo
pub mod Priority
pub mod PSlot
pub mod Interface
pub mod Runs
pub mod Agree
