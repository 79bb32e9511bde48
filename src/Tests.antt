-- ===== src/Tests.antt =====
-- The theorems at concrete inputs, and runs of the definitions.
mod Accounting
mod Risk
mod Dedup
mod Execution
mod Uncertainty
mod Strategies
mod Loop
mod Lots
mod Flow
mod Analyzer
