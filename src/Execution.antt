-- ===== src/Execution.antt =====
-- src/trading_crew/services/execution_service.py, from the values that it shares (Types) and the exchange
-- that it talks to (Exchange) to its two entry points, `process_order_requests` (Place) and
-- `poll_and_reconcile` (Poll).
pub mod Types
pub mod Exchange
pub mod Reconcile
pub mod Incremental
pub mod Release
pub mod World
pub mod Validate
pub mod Place
pub mod Poll
