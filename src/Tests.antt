-- ===== src/Tests.antt =====
-- Runs of the model on a small bridge, and the theorems applied to them.
mod Bridge
mod Runs
mod Examples
mod Process
mod Calls
mod Bounds
