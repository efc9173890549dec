-- ===== src/Tests.antt =====
-- Runs at concrete inputs: each theorem that has hypotheses is applied where they hold.
mod Instances
mod Fixtures
mod Estimates
mod Plans
mod Advances
mod Cooldowns
mod Pauses
mod Decisions
mod Clusters
mod Removals
mod Controllers
mod Loops
mod Waits
mod Creations
mod Registries
mod Commands
