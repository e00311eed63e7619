-- ===== src/Feature.antt =====
-- MEMT/Feature: the features that a hypothesis is scored by.
pub mod Verbatim
pub mod Scorer
pub mod Lm
mod Tests
