-- ===== src/Tests.antt =====
-- Tests: the theorems on concrete inputs.
mod Samples
mod Sqm
mod Auth
mod Poll
mod Export
mod Config
mod Discovery
mod Weather
mod Database
mod Api
mod Dsn
mod Simulator
mod Targets
