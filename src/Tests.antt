-- ===== src/Tests.antt =====
-- Concrete services, runs of the model on them, and the theorems at concrete inputs.
mod Services
mod Data
mod Retry
mod Worker
mod Replay
mod Ingest
mod Convergence
mod Scheduler
mod Security
mod Workflows
mod Incident
mod Process
mod RateLimit
mod Queries
mod Logging
mod Http
mod Crew
mod Endpoints
mod Analysis
mod Scripts
