-- ===== src/DebugRom.antt =====
-- debug_rom/: the program that a halted hart runs.
pub mod Encoding
pub mod Csrs
pub mod Fields
pub mod Unique
pub mod Causes
pub mod Values
pub mod Macros
pub mod Rom
pub mod Decode
pub mod Assembly
pub mod Hart
pub mod Runs
pub mod ParkLoop
pub mod Dispatch
pub mod OneScratch
mod Tests
