-- ===== src/Tests.antt =====
-- Concrete inputs: the theorems applied where their hypotheses hold, and runs of the definitions.
mod Replay
mod Broker
mod Earlier
mod Context
mod Framing
mod Human
mod Projection
mod Requests
mod Registry
mod Workspace
mod Transcript
