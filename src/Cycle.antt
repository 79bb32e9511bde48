-- ===== src/Cycle.antt =====
-- What src/trading_crew/main.py and src/trading_crew/flows/trading_flow.py do to the portfolio in a cycle.
pub mod Reserve
pub mod Dedup
