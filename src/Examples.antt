-- ===== src/Examples.antt =====
-- The theorems at concrete inputs, by the part of the program.
mod Fixtures
mod Selecting
mod Budgets
mod Restarting
mod Configs
mod Operating
mod Breaking
mod Replicas
mod Accessing
