-- ===== src/Fleet.antt =====
-- Nodes, restarts and their rolls: internal/fleet/transition.go.
pub mod Restarts
pub mod Nodes
mod Tests
