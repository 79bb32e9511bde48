-- ===== src/Models.antt =====
-- src/trading_crew/models: the records that the services pass to one another.
pub mod Order
pub mod Market
pub mod Signal
pub mod Portfolio
pub mod Risk
