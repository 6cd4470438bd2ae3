-- ===== src/Examples.antt =====
-- Tests of the model at concrete inputs, and the theorems applied there.
mod Supervision
mod Mission
mod Resume
mod Effects
mod Runtime
mod Health
mod Store
mod Execution
mod Run
mod Operations
