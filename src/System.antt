-- ===== src/System.antt =====
-- The tasks, inputs, channels, groups and the scheduler of one application, and the calls between
-- them. World has the state, Wiring what an application calls to connect its parts, Activation the
-- way from a channel to the run queue, Reset and Execution the way back.
pub mod World
pub mod Activation
pub mod Queued
pub mod Shape
pub mod Push
pub mod Barrier
pub mod Reset
pub mod Execution
pub mod Wiring
pub mod Counting
pub mod Sending
pub mod UnitTest
pub mod Pushed
pub mod Started
pub mod Executed
pub mod Connected
pub mod Members
pub mod Resetting
pub mod Restart
pub mod Group
pub mod Terminate
