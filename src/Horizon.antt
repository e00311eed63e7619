-- ===== src/Horizon.antt =====
-- MEMT/Strategy/Horizon: how far each engine's input has been consumed, and how far the engines
-- may drift apart.
pub mod Coverage
pub mod Window
pub mod Hypothesis
pub mod Old
pub mod Stay
mod Tests
