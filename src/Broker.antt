-- ===== src/Broker.antt =====
-- embedded.rs: the broker.
pub mod Agents
pub mod State
pub mod Core
pub mod Events
pub mod Requests
pub mod Reported
pub mod Runtime
pub mod Generations
pub mod Earlier
pub mod Context
pub mod Inputs
pub mod Prompted
pub mod Outcome
pub mod Treated
pub mod Connection
pub mod Checkout
pub mod Launch
pub mod Sessions
pub mod Exclusive
pub mod Restored
pub mod Dispatch
pub mod Launched
pub mod Served
pub mod Commands
pub mod Views
pub mod Answered
pub mod Replied
pub mod Shown
pub mod Reconnect
pub mod Sound
pub mod Recorded
pub mod Cancelled
pub mod Handled
