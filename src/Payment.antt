-- ===== src/Payment.antt =====
-- payment-service/src/ps: the payment lifecycle.
pub mod Model
pub mod Errors
pub mod Authorization
pub mod Storage
pub mod Repository
pub mod Moment
pub mod Iso
pub mod Instruction
pub mod Events
pub mod Platform
pub mod Client
pub mod Guards
pub mod Access
pub mod Service
pub mod Lifecycle
pub mod Validity
mod Tests
