-- ===== src/Risk.antt =====
-- src/trading_crew/risk and src/trading_crew/services/risk_pipeline.py: the checks that stand between a signal
-- and an order, and the pipeline that chains them.
pub mod CircuitBreaker
pub mod StopLoss
pub mod Sizer
pub mod Limits
pub mod SellGuard
pub mod Pipeline
