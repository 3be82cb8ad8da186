-- ===== src/Examples.antt =====
-- Concrete runs of the theorems, one module per part of the program.
pub mod Wire
pub mod Drawing
pub mod Hosting
pub mod Delivering
pub mod Saving
pub mod Sharing
pub mod Drafting
pub mod Filing
