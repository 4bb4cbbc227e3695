-- ===== src/Step.antt =====
-- step.rs: one command on a quiescent instance, and the moves that it sets off.
--
-- `Outcome` has the commands and results; `Advance` and its children the functions of `Advancer`;
-- `Commands` and its children the arms of `step`.
pub mod Outcome
pub mod Withdraw
pub mod Arm
pub mod Advance
pub mod Boundary
pub mod Commands
pub mod Quiescence
pub mod Errors
pub mod Open
pub mod OpenIncident
pub mod Claims
