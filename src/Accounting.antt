-- ===== src/Accounting.antt =====
-- How the reservation of a cycle (Cycle.Reserve) and the reconciliation of the execution service
-- (Execution.Reconcile and the files beside it) fit together.
pub mod Buy
pub mod Sell
pub mod Cancel
pub mod StopLoss
pub mod Partial
