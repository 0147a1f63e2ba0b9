-- ===== src/Tests.antt =====
-- Concrete inputs, and what the code does on them.
mod Data
mod Runs
mod Ranges
mod Store
mod Schedules
mod Parts
mod Program
mod Witnesses
