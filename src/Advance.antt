-- ===== src/Advance.antt =====
-- executing/advance.py
pub mod Wording
pub mod Writes
pub mod RollUp
pub mod Settle
pub mod Cancelled
pub mod Signals
pub mod Work
pub mod Resolve
pub mod Unblock
pub mod Names
pub mod Removal
pub mod Status
pub mod Merged
pub mod Parked
pub mod Events
pub mod Outcome
pub mod Latest
pub mod Standing
pub mod Lifted
pub mod Parents
mod Examples
