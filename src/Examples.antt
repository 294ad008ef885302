-- ===== src/Examples.antt =====
-- Concrete instances: the third-party code by concrete functions, and runs of the code on them.
pub mod Advertising
pub mod Browsing
pub mod Crates
pub mod Applications
pub mod Exchange
pub mod Machine
pub mod Messages
pub mod Provider
pub mod Session
