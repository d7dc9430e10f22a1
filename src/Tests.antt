-- ===== src/Tests.antt =====
-- Runs of the theorems at concrete inputs, on the engine of Mdbx/Reference.antt.
pub mod Data
mod Sorting
pub mod Store
mod Sessions
pub mod Calls
pub mod Packets
mod Requests
pub mod Wiring
mod Browser
mod Refinement
mod Recording
mod Playing
mod Datagrams
