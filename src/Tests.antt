-- ===== src/Tests.antt =====
-- The theorems at concrete inputs, and runs of the code's definitions.
mod Policies
mod Inputs
mod Systems
mod Clocks
mod Times
mod Wirings
mod Linux
mod Simulations
mod Channels
