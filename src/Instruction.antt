-- ===== src/Instruction.antt =====
-- instruction-service/src/inst: standing and single-use settlement instructions, their life, and their
-- use by payments.
pub mod Route
pub mod Model
pub mod Evidence
pub mod Storage
pub mod Repository
pub mod Platform
pub mod Service
pub mod Machine
pub mod Saving
pub mod Served
pub mod Calls
pub mod Viewing
pub mod Tests
