-- ===== src/Tests.antt =====
-- Concrete inputs: each theorem with hypotheses or arguments is applied to one.
pub mod Samples
pub mod Records
pub mod Queues
pub mod Logs
pub mod Nodes
pub mod Wires
pub mod Peers
pub mod Pages
pub mod Reports
pub mod Commands
