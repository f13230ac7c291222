-- ===== src/Tests.antt =====
-- The library's theorems at concrete inputs.
pub mod Data
mod Maps
mod Heap
mod Objects
mod Epoch
mod Rings
mod Phases
mod Calls
mod Slots
mod Replay
mod Blocks
