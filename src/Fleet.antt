-- ===== src/Fleet.antt =====
-- The fleet: leases of ephemeral vessels, the event log with its replay, and the controller that
-- appends to it (src/long_haul/ephemeral.py, src/long_haul/events/store.py).
pub mod Lease
pub mod Models
pub mod Events
pub mod Replay
pub mod Controller
