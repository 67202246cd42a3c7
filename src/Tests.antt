-- ===== src/Tests.antt =====
-- Runs of the model on small inputs, and the theorems at concrete inputs.
mod Machine
mod Tables
mod Tgids
mod Waits
mod Configs
mod Summaries
mod Layouts
mod Tracing
mod Sessions
mod Elfs
mod Commands
mod Leaving
mod Outputs
mod Codes
