-- ===== src/Scenarios.antt =====
-- Concrete runs: test data, tests of the definitions, and the theorems at concrete inputs, over the
-- numbers of Number/Fixed.antt.
pub mod Bearings
pub mod Data
pub mod Driving
pub mod Ids
pub mod Graph
pub mod Reads
pub mod Voyages
pub mod Motion
pub mod Manager
pub mod Tools
pub mod Stopping
pub mod Scans
pub mod Sights
pub mod Topics
