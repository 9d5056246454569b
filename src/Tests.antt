-- ===== src/Tests.antt =====
-- Concrete instances of the theorems, and tests.
pub mod Toy
mod Handles
mod Values
mod Operations
mod Boundary
mod Extras
mod System
