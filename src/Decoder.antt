-- ===== src/Decoder.antt =====
-- MEMT/Decoder
pub mod Score
pub mod History
pub mod Hypothesis
pub mod Implementation
pub mod Laws
pub mod Rounds
pub mod Viable
pub mod Depth
pub mod Complete
pub mod Paths
pub mod Ends
pub mod Whole
mod Tests
mod Searches
