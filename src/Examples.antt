-- ===== src/Examples.antt =====
-- States at which the theorems are applied, and the theorems there.
mod Worlds
mod Crowd
mod Registries
mod Handlers
mod Sessions
mod Transfers
mod Client
mod Files
mod Logins
