-- ===== src/Examples.antt =====
-- Concrete inputs: for each part of the program a run or an object that the theorems of that part
-- are applied to.
pub mod Checksums
pub mod Boards
pub mod Packets
pub mod Storing
pub mod Games
pub mod Serving
pub mod Playing
pub mod Sessions
pub mod Lists
pub mod Publishing
