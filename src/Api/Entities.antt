-- ===== src/Api/Entities.antt =====
-- The records that the control plane sends: the types of frontend/lib/api.ts, lines 1-584. A field
-- that may be missing or null is an `Option`, a field that always holds one text is left out, a
-- choice of texts is a data type, and `N` stands for the numbers that can have a fraction; the others are counts,
-- versions and milliseconds, so natural numbers.
pub mod Nodes
pub mod Policy
pub mod Distributions
pub mod Subscriptions
pub mod Releases
pub mod Telemetry
pub mod Accounts
