-- ===== src/Tests.antt =====
-- Runs of the program on a small database, and the theorems at them.
mod Demo
mod Runs
mod Requests
mod Witnesses
mod Keys
mod Cache
mod Seeding
mod Voids
mod Roles
mod History
mod Services
