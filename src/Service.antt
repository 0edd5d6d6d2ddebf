-- ===== src/Service.antt =====
-- What the program calls and does not implement: PostgreSQL behind SQLAlchemy (Tables), Redis
-- (Redis), the clock, UUIDs and random numbers (World). Each is a record of operations with the laws
-- that the program relies on. World is the state that a request or a worker runs over.
pub mod Tables
pub mod Redis
pub mod Ordering
pub mod World
pub mod Hoare
pub mod Loading
